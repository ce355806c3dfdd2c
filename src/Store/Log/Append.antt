-- ===== src/Store/Log/Append.antt =====
-- AppendEvent of internal/store/event.go on a numbered log.
use jadeenvoy.Errors.{ok}
use jadeenvoy.Json.{Value}
use jadeenvoy.Store.Event.{append_tx, AppendEventInput, new_event}
use jadeenvoy.Prelude.{
  ℕ, ◌+◌, ◌≡◌, refl, ap, Option, none, some, List, [], ◌∷◌, ◌++◌, str_eq, str_eq_iff, Bool-cases,
  inl, inr, String, Option-cases, arith, subst,
}
use native.Mathlib.Numerals.{add-one}
use jadeenvoy.Rows.{EventRow, SessionRow, Db, find_session, update_session, events_of}
use jadeenvoy.Store.Log.{Accounts, IsLog, Numbered}
use jadeenvoy.Store.Log.Tables.{
  on_row, events_of-append, find-update, Numbered-append, IsFresh, clashes-Numbered,
}

-- The database after a committed append.
abbrev pub appended : EventRow → Db → Db
appended e db = record {
  sessions = update_session e.session_id (λ r. record r { next_seq = r.next_seq + 1 }) db.sessions;
  events = db.events ++ e ∷ [];
}

Accounts-append :
    (e : EventRow) (s : SessionRow) (found : Option SessionRow) (es : List EventRow)
    → found ≡ some s
    → e.seq ≡ s.next_seq
    → Accounts found es
    → Accounts (on_row (λ r. record r { next_seq = r.next_seq + 1 }) found) (es ++ e ∷ [])
Accounts-append e s none es f at a = cc
Accounts-append e s (some r) es f at a =
    rw add-one
      (Numbered-append es e 1 r.next_seq a (cc (ap (λ (o : Option SessionRow). next_of o) f)))
  where
    next_of : Option SessionRow → ℕ
    next_of none = 0
    next_of (some x) = x.next_seq

-- A committed append keeps the numbering of every session.
pub appended-IsLog :
    (e : EventRow) (s : SessionRow) (db : Db)
    → find_session e.session_id db.sessions ≡ some s
    → e.seq ≡ s.next_seq
    → IsLog db
    → IsLog (appended e db)
appended-IsLog e s db found at log = record {
  at = λ id.
      rw
        (
          events_of-append,
          find-update id e.session_id (λ r. record r { next_seq = r.next_seq + 1 }) db.sessions
              (λ r. refl),
        )
        (elim (Bool-cases (str_eq e.session_id id)) [
          | inl same ↦ rw same (
              Accounts-append e s (find_session id db.sessions) (events_of id db.events)
                (rw (← (str_eq_iff e.session_id id).0 same) found) at (log.at id))
          | inr differs ↦ rw differs (log.at id)
        ]);
}

-- What a successful transaction returned and left behind.
pub append_tx-ok :
    (id : String) (now : ℕ) (input : AppendEventInput) (db db' : Db) (e : EventRow)
    → append_tx id now input db ≡ ok (e, db')
    → (s : SessionRow) × (find_session input.session_id db.sessions ≡ some s)
      × (e.session_id ≡ input.session_id)
      × (e.seq ≡ s.next_seq)
      × (db' ≡ appended e db)
unfolding append_tx
append_tx-ok id now input db db' e h =
    elim (Option-cases (find_session input.session_id db.sessions)) [
      | inl gone ↦ absurd (ground (arith, gone))
      | inr (s, found) ↦
          (s, found, ground (arith, found), ground (arith, found), ground (arith, found))
    ]

-- Appending to a log: with an id that no event has and a payload that is a document, AppendEvent's
-- transaction succeeds, gives the event the session's next number, and adds it at the end.
pub append_tx_total :
    (id : String) (now : ℕ) (input : AppendEventInput) (db : Db) (s : SessionRow) (p : Value)
    → IsLog db
    → find_session input.session_id db.sessions ≡ some s
    → input.payload ≡ some p
    → IsFresh id db.events
    → append_tx id now input db
      ≡ ok (new_event id now input s.next_seq p, appended (new_event id now input s.next_seq p) db)
unfolding append_tx
append_tx_total id now input db s p log found doc fresh =
    let numbers : Numbered 1 (events_of input.session_id db.events) s.next_seq =
      subst (λ (o : Option SessionRow). Accounts o (events_of input.session_id db.events)) found
        (log.at input.session_id) in
    ground (
      arith,
      found,
      doc,
      clashes-Numbered (new_event id now input s.next_seq p) db.events 1 fresh numbers,
    )
