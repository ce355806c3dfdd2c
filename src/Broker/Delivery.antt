-- ===== src/Broker/Delivery.antt =====
-- What a subscription of internal/event/broker.go receives.
use jadeenvoy.Prelude.{
  ℕ, ◌<◌, ◌≡◌, String, List, [], ◌∷◌, ◌++◌, Option, none, some, first, ◌==◌, map, if◌then◌else◌,
  All,
}
use jadeenvoy.Rows.{Event, event_of, events_of}
use jadeenvoy.World.{World, Subscriber}
use jadeenvoy.Broker.{hears, has_room}

-- The subscription behind a channel.
abbrev pub find_channel : ℕ → List Subscriber → Option Subscriber
find_channel c = first (λ s. s.channel == c)

-- No two subscriptions share a channel, and the next channel is new.
abbrev Distinct : List Subscriber → Type 0
Distinct [] = Unit
Distinct (s ∷ ss) = (find_channel s.channel ss ≡ none) × Distinct ss

pub record IsBroker (w : World) : Type 0 where
  pub distinct : Distinct w.subscribers
  pub allocated : All (λ s. s.channel < w.next_channel) w.subscribers

abbrev delivered : Event → Option Subscriber → Option Subscriber
delivered ev none = none
delivered ev (some s) =
    if hears ev s
    then (if has_room s then some (record s { queue = s.queue ++ ev ∷ [] }) else none)
    else some s

-- The channel holds what its session's log has beyond `base`, as long as the broker keeps it.
abbrev Holds : List Event → List Event → Option Subscriber → Type 0
Holds base events none = Unit
Holds base events (some s) = events ≡ base ++ s.queue

abbrev Listens : String → Option Subscriber → Type 0
Listens session none = Unit
Listens session (some s) = s.session_id ≡ session

pub record Tracks (c : ℕ) (session : String) (base : List Event) (w : World) : Type 0 where
  pub broker : IsBroker w
  pub listens : Listens session (find_channel c w.subscribers)
  pub holds :
      Holds base (map event_of (events_of session w.db.events)) (find_channel c w.subscribers)
