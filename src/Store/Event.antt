-- ===== src/Store/Event.antt =====
-- internal/store/event.go
use jadeenvoy.Prelude.{
  ℕ, ◌+◌, String, Bool, none, some, List, [], ◌∷◌, ◌++◌, ◌&&◌, ◌||◌, str_eq, leb, ◌==◌,
  if◌then◌else◌, some_of, sort_by, false, select,
}
use jadeenvoy.Json.{Value, Raw}
use jadeenvoy.Errors.{Result, ok, err, no_rows, constraint}
use jadeenvoy.Rows.{
  EventType, EventRow, SessionRow, Db, find_session, update_session, events_of, type_text,
}
use jadeenvoy.World.{Env, M, Ctx, ◌>>=◌, ◌>>◌, gets, db_call, set_db}

pub record AppendEventInput : Type 0 where
  pub session_id : String
  pub thread_id : String
  pub type : EventType
  pub payload : Raw

abbrev thread_or_primary : String → String
thread_or_primary t = if str_eq t "" then "primary" else t

unfoldable pub new_event : String → ℕ → AppendEventInput → ℕ → Value → EventRow
new_event id now input seq payload = record {
  id = id;
  session_id = input.session_id;
  thread_id = thread_or_primary input.thread_id;
  seq = seq;
  type = input.type;
  payload = payload;
  processed_at = some now;
  created_at = now;
}

-- PRIMARY KEY (id) and UNIQUE (session_id, seq)
unfoldable pub clashes : EventRow → List EventRow → Bool
clashes e = some_of (λ o. str_eq o.id e.id || (str_eq o.session_id e.session_id && o.seq == e.seq))

-- The transaction of AppendEvent: the sequence number is read from the session and advanced, and the
-- row inserted; on an error nothing is kept. A payload that is no JSON document violates a CHECK.
pub append_row : SessionRow → EventRow → Db → Result (EventRow × Db)
unfolding clashes
append_row s e db =
    if clashes e db.events
    then err constraint
    else ok (
      e,
      record {
        sessions =
            update_session e.session_id (λ r. record r { next_seq = r.next_seq + 1 }) db.sessions;
        events = db.events ++ e ∷ [];
      },
    )

unfoldable pub append_tx : String → ℕ → AppendEventInput → Db → Result (EventRow × Db)
unfolding append_row new_event
append_tx id now input db = elim (find_session input.session_id db.sessions) [
  | none ↦ err no_rows
  | some s ↦ elim input.payload [
    | none ↦ err constraint
    | some p ↦ append_row s (new_event id now input s.next_seq p) db
  ]
]

abbrev pub committed : Result (EventRow × Db) → M EventRow
committed (ok (e, db)) w = (ok e, set_db db w)
committed (err x) w = (err x, w)

-- The transaction on the database: committed whole, or rolled back.
unfoldable pub commit_tx : String → ℕ → AppendEventInput → M EventRow
commit_tx id now input w = committed (append_tx id now input w.db) w

abbrev pub by_seq : EventRow → EventRow → Bool
by_seq a b = leb a.seq b.seq

-- type IN (…)
abbrev has_type : List String → EventRow → Bool
has_type [] e = false
has_type (t ∷ ts) e = str_eq (type_text e.type) t || has_type ts e

-- The events of the types asked for: without types, all of them.
abbrev pub of_types : List String → List EventRow → List EventRow
of_types [] es = es
of_types (t ∷ ts) es = select (has_type (t ∷ ts)) es

module _ (env : Env) (ctx : Ctx) where
  unfoldable pub append_event : AppendEventInput → M EventRow
  append_event input = do
    n ← gets (λ w. w.tick)
    db_call env ctx
    commit_tx (env.new_id n) (env.now_ms n) input

  -- WHERE session_id = ? ORDER BY seq ASC, or … AND type IN (…)
  unfoldable pub list_events : String → List String → M (List EventRow)
  list_events id types = do
    db_call env ctx
    gets (λ w. sort_by by_seq (of_types types (events_of id w.db.events)))
