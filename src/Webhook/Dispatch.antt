-- ===== src/Webhook/Dispatch.antt =====
-- The delivery loop of internal/webhook/dispatcher.go.
pub mod Guard
pub mod Progress
use jadeenvoy.Errors.{Result, err, message, ok}
use jadeenvoy.Prelude.{
  Bool, List, Option, String, [], decimal, false, get_elem?, if◌then◌else◌, leb, ltb, none, some,
  str_eq, strip_prefix, ℕ, ◌&&◌, ◌++◌, ◌+◌, ◌/◌, ◌<>◌, ◌∷◌,
}
use jadeenvoy.Webhook.Queue.{
  claim_pending_deliveries, create_webhook_endpoint, enqueue_webhook_delivery, get_webhook_endpoint,
  increment_webhook_failures, list_webhook_endpoints_by_event_type, mark_delivery_delivered,
  mark_delivery_failed, reset_webhook_failures, tick,
}
use jadeenvoy.Webhook.Rows.{DeliveryRow, EndpointRow, HookEnv, Hooks, Post}
use jadeenvoy.Webhook.Target.{validate_webhook_url}
use jadeenvoy.World.{attempt, next}
use jadeenvoy.Json.{Value, object, str}

-- The back-off in milliseconds: 1 s, 5 s, 30 s, 5 min, 1 h.
abbrev pub delays : List ℕ
delays = 1000 ∷ 5000 ∷ 30000 ∷ 300000 ∷ 3600000 ∷ []

-- nextAttemptAfter; `none` gives up.
unfoldable pub next_attempt_after : ℕ → ℕ → Option ℕ
next_attempt_after attempt now = elim (get_elem? delays attempt) [
  | none ↦ none
  | some delay ↦ some (now + delay)
]

-- strings.TrimPrefix(secret, "whsec_"), and the whole where nothing is left
unfoldable pub signing_key : String → String
signing_key secret = elim (strip_prefix "whsec_" secret) [
  | none ↦ secret
  | some key ↦ if str_eq key "" then secret else key
]

unfoldable pub sign : HookEnv → String → Value → ℕ → String
sign env secret body now = env.hmac (signing_key secret) (now / 1000) body

-- The answer of the target: a status, 0 without a response, and an error text where it failed.
unfoldable pub status_of : Result (ℕ × String) → ℕ
status_of (ok r) = r.0
status_of (err e) = 0

unfoldable pub is_success : Result (ℕ × String) → Bool
is_success (ok r) = leb 200 r.0 && ltb r.0 300
is_success (err e) = false

unfoldable pub failure_text : HookEnv → Result (ℕ × String) → String
failure_text env (ok r) = "status " <> (decimal r.0 <> (": " <> r.1))
failure_text env (err e) = env.error_text e

module _ (env : HookEnv) (allow_private : Bool) where
  abbrev pub run : (Hooks → Result (Unit {0}) × Hooks) → Hooks → Hooks
  run f w = (f w).1

  -- What follows a request that failed.
  unfoldable pub after_failure : DeliveryRow → EndpointRow → Result (ℕ × String) → Hooks → Hooks
  after_failure d ep answer w = elim (next_attempt_after d.attempt (env.now_ms w.tick)) [
    | none ↦
        run (increment_webhook_failures env ep.id)
          (run (mark_delivery_delivered env d.id (status_of answer)) w)
    | some next ↦
        run (mark_delivery_failed env d.id (status_of answer) (failure_text env answer) next) w
  ]

  unfoldable pub after_post : DeliveryRow → EndpointRow → Result (ℕ × String) → Hooks → Hooks
  after_post d ep answer w =
      if is_success answer
      then run (reset_webhook_failures env ep.id)
          (run (mark_delivery_delivered env d.id (status_of answer)) w)
      else after_failure d ep answer w

  post_of : DeliveryRow → EndpointRow → ℕ → Post
  post_of d ep now = record {
    url = ep.url;
    delivery = d.id;
    signature = sign env ep.signing_secret d.payload now;
    timestamp = now / 1000;
  }

  unfoldable pub post_to : DeliveryRow → EndpointRow → Hooks → Hooks
  unfolding post_of
  post_to d ep w =
      let p = post_of d ep (env.now_ms w.tick) in
      after_post d ep (env.post w.tick p) (tick (record w { posts = w.posts ++ p ∷ [] }))

  unfoldable pub deliver_to : DeliveryRow → EndpointRow → Hooks → Hooks
  deliver_to d ep w = elim ep.disabled_at [
    | some _ ↦ run (mark_delivery_delivered env d.id 0) w
    | none ↦ elim (validate_webhook_url env w.tick allow_private ep.url) [
      | err e ↦
          run (increment_webhook_failures env ep.id)
            (run (mark_delivery_delivered env d.id 0) (tick w))
      | ok u ↦ post_to d ep (tick w)
    ]
  ]

  -- An endpoint that is gone, or cannot be read, leaves the delivery as it is.
  unfoldable pub deliver_one : DeliveryRow → Hooks → Hooks
  deliver_one d w =
      let (r, w₁) = get_webhook_endpoint env d.endpoint_id w in
      elim r [ err e ↦ w₁ | ok ep ↦ deliver_to d ep w₁ ]

  unfoldable pub deliver_all : List DeliveryRow → Hooks → Hooks
  deliver_all [] w = w
  deliver_all (d ∷ ds) w = deliver_all ds (deliver_one d w)

  unfoldable pub dispatch_pending : Hooks → Hooks
  dispatch_pending w =
      let (r, w₁) = claim_pending_deliveries env 16 w in
      elim r [ err e ↦ w₁ | ok ds ↦ deliver_all ds w₁ ]

  -- CreateEndpoint; the secret is "whsec_" and fresh random digits.
  unfoldable pub create_endpoint :
      String → String → List String → String → Hooks → Result EndpointRow × Hooks
  create_endpoint tenant url types digits w =
      if str_eq url ""
      then (err (message "url is required"), w)
      else elim (validate_webhook_url env w.tick allow_private url) [
        | err e ↦ (err e, tick w)
        | ok u ↦ create_webhook_endpoint env tenant url types ("whsec_" <> digits) (tick w)
      ]

  event_payload : String → String → String → ℕ → Value
  event_payload event type session now = object (
      ("type", str "event")
      ∷ ("id", str ("evte_" <> event))
      ∷ ("created_at", str (env.rfc3339 now))
      ∷ (
        "data",
        object (("type", str type) ∷ ("id", str session) ∷ ("session_id", str session) ∷ []),
      )
      ∷ [])

  enqueue_each : List EndpointRow → String → String → String → Hooks → Hooks
  unfolding event_payload
  enqueue_each [] event type session w = w
  enqueue_each (ep ∷ eps) event type session w = enqueue_each eps event type session (
      run
        (enqueue_webhook_delivery env ep.id event type
          (event_payload event type session (env.now_ms w.tick)))
        w)

  -- PublishEvent: one delivery for each endpoint that subscribes; an error of one is only logged.
  unfoldable pub publish_event :
      String → String → String → String → Hooks → Result (Unit {0}) × Hooks
  unfolding enqueue_each
  publish_event tenant event type session w =
      let (r, w₁) = list_webhook_endpoints_by_event_type env tenant type w in
      elim r [ err e ↦ (err e, w₁) | ok eps ↦ (ok tt, enqueue_each eps event type session w₁) ]
