-- ===== src/Tests/Stream.antt =====
-- The broker and the stream at concrete inputs.
use native.Mathlib.Omega.{arith}
use jadeenvoy.Prelude.{ℕ, ◌≡◌, refl, some, List, [], ◌∷◌, ◌++◌, map}
use jadeenvoy.Rows.{EventRow, EventType, event_of, user_message, agent_message, session_status_idle}
use jadeenvoy.World.{World}
use jadeenvoy.Broker.{subscribe}
use jadeenvoy.Stream.{stream, replay, live, is_terminal, row_of}
use jadeenvoy.Stream.Exact.{up_to_terminal, beyond, frame, stream_exact}
use jadeenvoy.Tests.Fixtures.{blank, no_fields}

abbrev row : ℕ → EventType → EventRow
row n type = record {
  id = "e";
  session_id = "x";
  thread_id = "primary";
  seq = n;
  type = type;
  payload = no_fields;
  processed_at = some 5;
  created_at = 5;
}

abbrev old : List EventRow
old = row 1 user_message ∷ []

abbrev shared : List EventRow
shared = row 2 agent_message ∷ []

abbrev late : List EventRow
late = row 3 session_status_idle ∷ row 4 user_message ∷ []

stream_exact_example :
    map frame (stream 1 (old ++ shared) (map event_of (shared ++ late)))
    ≡ map frame (up_to_terminal (beyond 1 ((old ++ shared) ++ late)))
stream_exact_example = stream_exact 1 5 old shared late (omega arith)

-- The frames 2 and 3: what was replayed is not sent again, and the idle event ends the stream.
frames :
    map frame (stream 1 (old ++ shared) (map event_of (shared ++ late)))
    ≡ map frame (row 2 agent_message ∷ row 3 session_status_idle ∷ [])
unfolding stream replay live is_terminal row_of
frames = refl

abbrev listening : World
listening = (subscribe "x" blank).1
