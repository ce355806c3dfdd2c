-- ===== src/Broker.antt =====
-- internal/event/broker.go: publish to the log first, then to the channels of the session.
pub mod Delivery
pub mod Silent
use jadeenvoy.Prelude.{
  ℕ, ◌+◌, ◌<◌, String, Bool, true, false, List, [], ◌∷◌, ◌++◌, length, select, not, str_eq, ltb,
  ◌==◌, if◌then◌else◌, ◌&&◌,
}
use jadeenvoy.Json.{Raw}
use jadeenvoy.Rows.{EventRow, EventType, Event, event_of}
use jadeenvoy.World.{Env, World, Subscriber, M, Ctx, ◌>>=◌, ◌>>◌, pure, modify}
use jadeenvoy.Store.Event.{append_event}

-- make(chan Event, 64)
abbrev pub capacity : ℕ
capacity = 64

abbrev pub has_room : Subscriber → Bool
has_room s = ltb (length s.queue) capacity

abbrev pub hears : Event → Subscriber → Bool
hears ev s = str_eq s.session_id ev.session_id

-- What becomes of the subscriptions: a channel with room gets the event, a full one is taken out.
unfoldable pub deliver : Event → List Subscriber → List Subscriber
deliver ev [] = []
deliver ev (s ∷ ss) =
    let rest = deliver ev ss in
    if hears ev s
    then (if has_room s then record s { queue = s.queue ++ ev ∷ [] } ∷ rest else rest)
    else s ∷ rest

-- The channels that dispatch closes: the slow consumers.
unfoldable pub overflown : Event → List Subscriber → List Subscriber
overflown ev = select (λ s. hears ev s && not (has_room s))

unfoldable pub dispatch : Event → World → World
unfolding deliver overflown
dispatch ev w = record w {
  subscribers = deliver ev w.subscribers;
  closed = w.closed ++ overflown ev w.subscribers;
}

abbrev pub run_hooks : Event → World → World
run_hooks ev w = record w { hook_calls = w.hook_calls ++ ev ∷ [] }

-- Publish: an event that is not persisted is not handed on.
unfoldable pub publish : Env → Ctx → String → EventType → String → Raw → M Event
publish env ctx session type thread payload = do
  row ←
      append_event env ctx
        (record { session_id = session; thread_id = thread; type = type; payload = payload })
  modify (dispatch (event_of row))
  modify (run_hooks (event_of row))
  pure (event_of row)

-- Subscribe returns the new channel.
unfoldable pub subscribe : String → World → ℕ × World
subscribe session w = (
  w.next_channel,
  record w {
    next_channel = w.next_channel + 1;
    subscribers =
        w.subscribers ++ record { channel = w.next_channel; session_id = session; queue = [] } ∷ [];
  },
)

unfoldable pub unsubscribe : ℕ → World → World
unsubscribe c w = record w { subscribers = select (λ s. not (s.channel == c)) w.subscribers }

unfoldable pub subscriber_count : String → World → ℕ
subscriber_count session w = length (select (λ s. str_eq s.session_id session) w.subscribers)
