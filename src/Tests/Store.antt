-- ===== src/Tests/Store.antt =====
-- The store at concrete inputs.
use jadeenvoy.Prelude.{str_eq_iff, ℕ, String, ◌≡◌, refl, some, List, [], ◌∷◌}
use jadeenvoy.Errors.{ok}
use jadeenvoy.Rows.{EventRow, Db, events_of, user_message, running, agent_message}
use native.Mathlib.Omega.{arith}
use jadeenvoy.World.{Ctx, background, turn, ◌>>=◌, World}
use jadeenvoy.Store.Session.{
  insert_session, get_session, or_not_found, update_session_status, update_row, create_session,
  new_session,
}
use jadeenvoy.Store.Event.{
  append_event, commit_tx, AppendEventInput, append_tx, new_event, list_events, of_types,
}
use jadeenvoy.Store.Log.{IsLog}
use jadeenvoy.Store.Log.Append.{appended, append_tx_total}
use jadeenvoy.Store.Log.Keeps.{list_events_in_order}
use jadeenvoy.Store.Log.Calls.{
  Call, create, append, set_status, perform, perform_all, perform_all-IsLog,
}
use jadeenvoy.Tests.Fixtures.{quiet, blank, empty_db, no_fields, plain}

empty_db-IsLog : IsLog empty_db
empty_db-IsLog = record { at = λ id. refl }

abbrev said : String → AppendEventInput
said id = record { session_id = id; thread_id = ""; type = user_message; payload = some no_fields }

-- The first session is called "x"; the second append goes to a session that does not exist.
abbrev calls : List (Ctx × Call)
calls =
    (background, create plain)
    ∷ (turn, append (said "x"))
    ∷ (turn, append (said "nobody"))
    ∷ (turn, set_status "x" running)
    ∷ (background, append (said "x"))
    ∷ []

perform_all-IsLog_example : IsLog (perform_all quiet calls blank).db
perform_all-IsLog_example = perform_all-IsLog quiet calls blank empty_db-IsLog

-- Two events, numbered 1 and 2.
abbrev numbers : List EventRow → List ℕ
numbers [] = []
numbers (e ∷ es) = e.seq ∷ numbers es

two_events : numbers (events_of "x" (perform_all quiet calls blank).db.events) ≡ 1 ∷ 2 ∷ []
unfolding perform_all perform create_session new_session insert_session get_session or_not_found
    append_event commit_tx append_tx new_event update_session_status update_row ◌>>=◌
two_events = refl

abbrev one_session : Db
one_session = record { sessions = new_session "x" 0 plain ∷ []; events = [] }

one_session-IsLog : IsLog one_session
unfolding new_session
one_session-IsLog = record { at = λ id. ground (arith, str_eq_iff "x" id) }

append_tx_total_example :
    append_tx "e" 7 (said "x") one_session
    ≡ ok (
      new_event "e" 7 (said "x") 1 no_fields,
      appended (new_event "e" 7 (said "x") 1 no_fields) one_session,
    )
unfolding new_session
append_tx_total_example =
    append_tx_total "e" 7 (said "x") one_session (new_session "x" 0 plain) no_fields
      one_session-IsLog refl refl refl

-- An answer and a user message: the list asks for the second type only.
abbrev mixed_calls : List (Ctx × Call)
mixed_calls =
    (background, create plain)
    ∷ (turn, append (record (said "x") { type = agent_message }))
    ∷ (turn, append (said "x"))
    ∷ []

abbrev mixed : World
mixed = perform_all quiet mixed_calls blank

abbrev messages_of_mixed : List EventRow
messages_of_mixed = of_types ("user.message" ∷ []) (events_of "x" mixed.db.events)

one_message : numbers messages_of_mixed ≡ 2 ∷ []
unfolding perform_all perform create_session new_session insert_session get_session or_not_found
    append_event commit_tx append_tx new_event ◌>>=◌
one_message = refl

list_events_in_order_example : messages_of_mixed ≡ messages_of_mixed
unfolding list_events perform_all perform create_session new_session insert_session get_session
    or_not_found append_event commit_tx append_tx new_event ◌>>=◌
list_events_in_order_example =
    list_events_in_order quiet background "x" ("user.message" ∷ []) mixed messages_of_mixed
      (perform_all-IsLog quiet mixed_calls blank empty_db-IsLog) refl
