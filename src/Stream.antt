-- ===== src/Stream.antt =====
-- internal/api/event.go, streamEvents: the server-sent events of one session. The client subscribes,
-- gets the history beyond `since` replayed, and then what its channel brings.
pub mod Exact
use jadeenvoy.Prelude.{
  ℕ, Bool, true, false, Option, none, some, List, [], ◌∷◌, leb, if◌then◌else◌, ℤ, pos, negsuc, ◌++◌,
}
use jadeenvoy.Rows.{EventType, session_status_idle, session_status_terminated, EventRow, Event}

unfoldable pub is_terminal : EventType → Bool
is_terminal session_status_idle = true
is_terminal session_status_terminated = true
is_terminal _ = false

-- The row that the live loop builds of an event: without processed_at.
unfoldable pub row_of : Event → EventRow
row_of ev = record {
  id = ev.id;
  session_id = ev.session_id;
  thread_id = ev.thread_id;
  seq = ev.seq;
  type = ev.type;
  payload = ev.payload;
  processed_at = none;
  created_at = 0;
}

-- What was written, and the highest number replayed; `none` when a terminal event ended the stream.
pub record Replayed : Type 0 where
  pub written : List EventRow
  pub reached : Option ℕ

abbrev pub add_written : EventRow → Replayed → Replayed
add_written ev r = record r { written = ev ∷ r.written }

unfoldable pub replay : ℕ → ℕ → List EventRow → Replayed
replay since reached [] = record { written = []; reached = some reached }
replay since reached (ev ∷ evs) =
    let skipped = replay since reached evs in
    let rest = replay since ev.seq evs in
    if leb ev.seq since
    then skipped
    else if is_terminal ev.type
    then record { written = ev ∷ []; reached = none }
    else add_written ev rest

-- The loop over the channel, up to its closing or the client's leaving (the end of the list).
unfoldable pub live : ℕ → List Event → List EventRow
live reached [] = []
live reached (ev ∷ evs) =
    let rest = live reached evs in
    if leb ev.seq reached
    then rest
    else if is_terminal ev.type
    then row_of ev ∷ []
    else row_of ev ∷ rest

abbrev then_live : Replayed → List Event → List EventRow
then_live r evs = elim r.reached [ none ↦ [] | some n ↦ live n evs ]

-- The frames of one connection: the events of the history, then those of the channel.
unfoldable pub stream : ℕ → List EventRow → List Event → List EventRow
stream since history received =
    let r = replay since since history in r.written ++ then_live r received

-- parseSinceSeq: the number that the query or the header gives, once parsed.
unfoldable pub since_of : Option ℤ → ℕ
since_of (some (pos n)) = n
since_of _ = 0
