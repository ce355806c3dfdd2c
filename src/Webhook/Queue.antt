-- ===== src/Webhook/Queue.antt =====
-- internal/store/webhook.go: each call gives its answer and the state after it.
use jadeenvoy.Errors.{Result, db_error, err, not_found, ok, constraint}
use jadeenvoy.Harness.Guardrails.{is_empty}
use jadeenvoy.Prelude.{
  Bool, List, Option, String, [], false, first, if◌then◌else◌, leb, map, none, not, select, some,
  some_of, sort_by, str_eq, take, true, ℕ, ◌&&◌, ◌++◌, ◌+◌, ◌==◌, ◌||◌, ◌∷◌,
}
use jadeenvoy.Webhook.Rows.{DeliveryRow, EndpointRow, HookEnv, Hooks}
use jadeenvoy.World.{next}
use jadeenvoy.Json.{Value}

abbrev pub tick : Hooks → Hooks
tick w = record w { tick = w.tick + 1 }

-- One statement on the database: its effect, or an error and none.
unfoldable pub db_exec : HookEnv → (Hooks → Hooks) → Hooks → Result (Unit {0}) × Hooks
db_exec env f w = if env.db_fault w.tick then (err db_error, tick w) else (ok tt, tick (f w))

-- SELECT … WHERE id = ?
abbrev pub find_endpoint : String → List EndpointRow → Option EndpointRow
find_endpoint id = first (λ e. str_eq e.id id)

abbrev pub find_delivery : String → List DeliveryRow → Option DeliveryRow
find_delivery id = first (λ d. str_eq d.id id)

abbrev update_endpoint : String → (EndpointRow → EndpointRow) → Hooks → Hooks
update_endpoint id f w = record w {
  endpoints = map (λ e. if str_eq e.id id then f e else e) w.endpoints;
}

abbrev pub update_delivery :
    String → (DeliveryRow → DeliveryRow) → List DeliveryRow → List DeliveryRow
update_delivery id f = map (λ d. if str_eq d.id id then f d else d)

-- The rows of INSERT INTO.
unfoldable pub new_endpoint : String → ℕ → String → String → List String → String → EndpointRow
new_endpoint id now tenant url types secret = record {
  id = id;
  tenant_id = if str_eq tenant "" then "tnt-default" else tenant;
  url = url;
  event_types = types;
  signing_secret = secret;
  disabled_at = none;
  disabled_reason = none;
  consecutive_failures = 0;
  created_at = now;
  updated_at = now;
}

unfoldable pub new_delivery : String → ℕ → String → String → String → Value → DeliveryRow
new_delivery id now endpoint event type payload = record {
  id = id;
  endpoint_id = endpoint;
  event_id = event;
  event_type = type;
  payload = payload;
  attempt = 0;
  next_attempt_at = some now;
  delivered_at = none;
  last_status = none;
  last_error = none;
  created_at = now;
}

abbrev or_missing : Option EndpointRow → Result EndpointRow
or_missing none = err not_found
or_missing (some e) = ok e

-- SELECT id FROM webhook_endpoint WHERE tenant_id = ? AND disabled_at IS NULL, and the types
abbrev is_active : String → EndpointRow → Bool
is_active tenant e =
    str_eq e.tenant_id tenant && elim e.disabled_at [ none ↦ true | some _ ↦ false ]

unfoldable pub subscribes : String → EndpointRow → Bool
subscribes type e = is_empty e.event_types || some_of (λ t. str_eq t type) e.event_types

-- delivered_at IS NULL AND next_attempt_at <= now
unfoldable pub is_due : ℕ → DeliveryRow → Bool
is_due now d =
    elim d.delivered_at [ none ↦ true | some _ ↦ false ]
    && elim d.next_attempt_at [ none ↦ false | some t ↦ leb t now ]

abbrev by_next_attempt : DeliveryRow → DeliveryRow → Bool
by_next_attempt a b = elim a.next_attempt_at [
  | none ↦ true
  | some t ↦ elim b.next_attempt_at [ none ↦ false | some u ↦ leb t u ]
]

module _ (env : HookEnv) where
  unfoldable pub get_webhook_endpoint : String → Hooks → Result EndpointRow × Hooks
  get_webhook_endpoint id w =
      if env.db_fault w.tick
      then (err db_error, tick w)
      else (or_missing (find_endpoint id w.endpoints), tick w)

  unfoldable pub create_webhook_endpoint :
      String → String → List String → String → Hooks → Result EndpointRow × Hooks
  create_webhook_endpoint tenant url types secret w =
      let row = new_endpoint (env.new_id w.tick) (env.now_ms w.tick) tenant url types secret in
      let (r, w₁) = db_exec env (λ v. record v { endpoints = v.endpoints ++ row ∷ [] }) w in
      elim r [ err e ↦ (err e, w₁) | ok u ↦ get_webhook_endpoint row.id w₁ ]

  -- The query and the reading of each row in turn.
  read_all : List EndpointRow → Hooks → Result (List EndpointRow) × Hooks
  read_all [] w = (ok [], w)
  read_all (e ∷ es) w =
      let (r, w₁) = get_webhook_endpoint e.id w in
      let (rs, w₂) = read_all es w₁ in
      elim r [
        | err x ↦ (err x, w₁)
        | ok row ↦ elim rs [ err x ↦ (err x, w₂) | ok rows ↦ (ok (row ∷ rows), w₂) ]
      ]

  unfoldable pub list_webhook_endpoints_by_event_type :
      String → String → Hooks → Result (List EndpointRow) × Hooks
  unfolding read_all
  list_webhook_endpoints_by_event_type tenant type w =
      if env.db_fault w.tick
      then (err db_error, tick w)
      else (let (r, w₁) = read_all (select (is_active tenant) w.endpoints) (tick w) in
          elim r [ err x ↦ (err x, w₁) | ok rows ↦ (ok (select (subscribes type) rows), w₁) ])

  -- ON DELETE CASCADE takes the deliveries along.
  unfoldable pub delete_webhook_endpoint : String → Hooks → Result (Unit {0}) × Hooks
  delete_webhook_endpoint id = db_exec env (λ w. record w {
    endpoints = select (λ e. not (str_eq e.id id)) w.endpoints;
    deliveries = select (λ d. not (str_eq d.endpoint_id id)) w.deliveries;
  })

  unfoldable pub increment_webhook_failures : String → Hooks → Result (Unit {0}) × Hooks
  increment_webhook_failures id =
      db_exec env
        (update_endpoint id (λ e. record e { consecutive_failures = e.consecutive_failures + 1 }))

  unfoldable pub reset_webhook_failures : String → Hooks → Result (Unit {0}) × Hooks
  reset_webhook_failures id =
      db_exec env (update_endpoint id (λ e. record e { consecutive_failures = 0 }))

  unfoldable pub disable_webhook_endpoint : String → String → Hooks → Result (Unit {0}) × Hooks
  disable_webhook_endpoint id reason w =
      db_exec env
        (update_endpoint id
          (λ e. record e { disabled_at = some (env.now_ms w.tick); disabled_reason = some reason }))
        w

  -- REFERENCES webhook_endpoint(id): without the endpoint the statement fails.
  unfoldable pub enqueue_webhook_delivery :
      String → String → String → Value → Hooks → Result (Unit {0}) × Hooks
  enqueue_webhook_delivery endpoint event type payload w =
      elim (find_endpoint endpoint w.endpoints) [
        | none ↦ (err (if env.db_fault w.tick then db_error else constraint), tick w)
        | some ep ↦
            db_exec env
              (λ v. record v {
                deliveries =
                    v.deliveries
                    ++ new_delivery (env.new_id w.tick) (env.now_ms w.tick) endpoint event type
                        payload
                      ∷ [];
              })
              w
      ]

  unfoldable pub claim_pending_deliveries : ℕ → Hooks → Result (List DeliveryRow) × Hooks
  claim_pending_deliveries limit w = if env.db_fault w.tick then (err db_error, tick w) else (
    ok (
        take (if limit == 0 then 16 else limit)
          (sort_by by_next_attempt (select (is_due (env.now_ms w.tick)) w.deliveries))),
    tick w,
  )

  unfoldable pub mark_delivery_delivered : String → ℕ → Hooks → Result (Unit {0}) × Hooks
  mark_delivery_delivered id status w =
      db_exec env
        (λ v. record v {
          deliveries =
              update_delivery id
                (λ d. record d {
                  delivered_at = some (env.now_ms w.tick);
                  last_status = some status;
                })
                v.deliveries;
        })
        w

  unfoldable pub mark_delivery_failed : String → ℕ → String → ℕ → Hooks → Result (Unit {0}) × Hooks
  mark_delivery_failed id status text next = db_exec env (λ v. record v {
    deliveries =
        update_delivery id
          (λ d. record d {
            attempt = d.attempt + 1;
            last_status = some status;
            last_error = some text;
            next_attempt_at = some next;
          })
          v.deliveries;
  })
