-- ===== src/Tests/Webhook.antt =====
-- One delivery to one endpoint.
use jadeenvoy.Errors.{ok}
use jadeenvoy.Prelude.{[], false, refl, true, ◌*◌, ◌∷◌, ◌≡◌}
use jadeenvoy.Tests.Fixtures.{no_fields, unary}
use jadeenvoy.Webhook.Dispatch.Progress.{Progress}
use jadeenvoy.Webhook.Queue.{new_delivery, new_endpoint}
use jadeenvoy.Webhook.Rows.{DeliveryRow, EndpointRow, HookEnv, Hooks, v6, v4}
use jadeenvoy.Webhook.Target.{is_blocked_ip, is_blocked_v4}

abbrev refusing : HookEnv
refusing = record {
  new_id = unary;
  now_ms = λ n. n * 1000;
  db_fault = λ n. false;
  parse_url = λ s. ok ("https", s);
  lookup_ip = λ n host. ok (v4 93 184 216 34 ∷ []);
  post = λ n p. ok (500, "later");
  hmac = λ key seconds body. "mac";
  rfc3339 = λ n. "now";
  error_text = λ e. "error";
}

abbrev endpoint : EndpointRow
endpoint = new_endpoint "ep" 0 "" "example.org" [] "whsec_00"

abbrev delivery : DeliveryRow
delivery = new_delivery "dl" 0 "ep" "ev" "session.status_idle" no_fields

abbrev queued : Hooks
queued = record { endpoints = endpoint ∷ []; deliveries = delivery ∷ []; posts = []; tick = 0 }

-- The cloud's metadata address, also in its form of version 6, and a public one.
blocked : is_blocked_ip (v4 169 254 169 254) ≡ true
unfolding is_blocked_ip is_blocked_v4
blocked = refl

blocked_mapped :
    is_blocked_ip (v6 (0 ∷ 0 ∷ 0 ∷ 0 ∷ 0 ∷ 0 ∷ 0 ∷ 0 ∷ 0 ∷ 0 ∷ 255 ∷ 255 ∷ 10 ∷ 0 ∷ 0 ∷ 1 ∷ []))
    ≡ true
unfolding is_blocked_ip is_blocked_v4
blocked_mapped = refl

public_passes : is_blocked_ip (v4 93 184 216 34) ≡ false
unfolding is_blocked_ip is_blocked_v4
public_passes = refl
