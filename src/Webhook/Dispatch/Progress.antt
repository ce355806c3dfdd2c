-- ===== src/Webhook/Dispatch/Progress.antt =====
-- deliverOne of internal/webhook/dispatcher.go: what a round does to its row of the queue.
use jadeenvoy.Prelude.{Bool, Option, false, none, some, true, ℕ, ◌+◌, ◌≡◌, ◌≤◌}
use jadeenvoy.Webhook.Dispatch.{next_attempt_after}
use jadeenvoy.Webhook.Rows.{DeliveryRow}
use jadeenvoy.World.{attempt}

abbrev pub is_done : DeliveryRow → Bool
is_done d = elim d.delivered_at [ none ↦ false | some _ ↦ true ]

-- What a round makes of the delivery `d`: it is done, or it has one attempt more, of which there are
-- at most five, and its next time is the back-off's.
pub data Progress (d : DeliveryRow) : Option DeliveryRow → Type 0 where
  over : (d' : DeliveryRow) → is_done d' ≡ true → Progress d (some d')
  one_more :
      (d' : DeliveryRow) (now : ℕ)
      → d'.attempt ≡ d.attempt + 1
      → d'.attempt ≤ 5
      → d'.next_attempt_at ≡ next_attempt_after d.attempt now
      → Progress d (some d')

on_delivery : (DeliveryRow → DeliveryRow) → Option DeliveryRow → Option DeliveryRow
on_delivery f none = none
on_delivery f (some d) = some (f d)
