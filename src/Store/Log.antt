-- ===== src/Store/Log.antt =====
-- The well-formedness of the event log: in every session the events carry the numbers 1, 2, 3, …
-- in the order of their insertion, and next_seq is the number after the last.
pub mod Tables
pub mod Append
pub mod Outcome
pub mod Keeps
pub mod Calls
use jadeenvoy.Prelude.{ℕ, suc, String, ◌≡◌, Option, none, some, List, [], ◌∷◌}
use jadeenvoy.Rows.{EventRow, SessionRow, Db, find_session, events_of}

abbrev pub Numbered : ℕ → List EventRow → ℕ → Type 0
Numbered lo [] hi = lo ≡ hi
Numbered lo (e ∷ es) hi = (e.seq ≡ lo) × Numbered (suc lo) es hi

-- A session that is missing has no events (FOREIGN KEY … ON DELETE CASCADE).
abbrev pub Accounts : Option SessionRow → List EventRow → Type 0
Accounts none es = es ≡ []
Accounts (some s) es = Numbered 1 es s.next_seq

pub record IsLog (db : Db) : Type 0 where
  pub at : (id : String) → Accounts (find_session id db.sessions) (events_of id db.events)
