-- ===== src/Webhook/Rows.antt =====
-- The two tables of internal/store/webhook.go and what comes from outside. Times are milliseconds.
use jadeenvoy.Errors.{Error, Result}
use jadeenvoy.Prelude.{Bool, List, Option, String, ℕ}
use jadeenvoy.Json.{Value}

pub record EndpointRow : Type 0 where
  pub id : String
  pub tenant_id : String
  pub url : String
  pub event_types : List String
  pub signing_secret : String
  pub disabled_at : Option ℕ
  pub disabled_reason : Option String
  pub consecutive_failures : ℕ
  pub created_at : ℕ
  pub updated_at : ℕ

pub record DeliveryRow : Type 0 where
  pub id : String
  pub endpoint_id : String
  pub event_id : String
  pub event_type : String
  pub payload : Value
  pub attempt : ℕ
  pub next_attempt_at : Option ℕ
  pub delivered_at : Option ℕ
  pub last_status : Option ℕ
  pub last_error : Option String
  pub created_at : ℕ

-- An address: four bytes, or the sixteen of version 6.
pub data Ip : Type 0 where
  v4 : ℕ → ℕ → ℕ → ℕ → Ip
  v6 : List ℕ → Ip

-- A request of the dispatcher as its target sees it.
pub record Post : Type 0 where
  pub url : String
  pub delivery : String
  pub signature : String
  pub timestamp : ℕ

-- `posts` are the requests made, newest last; `tick` counts the calls.
pub record Hooks : Type 0 where
  pub endpoints : List EndpointRow
  pub deliveries : List DeliveryRow
  pub posts : List Post
  pub tick : ℕ

pub record HookEnv : Type 0 where
  pub new_id : ℕ → String
  pub now_ms : ℕ → ℕ
  pub db_fault : ℕ → Bool
  -- url.Parse, as scheme and host, and net.LookupIP
  pub parse_url : String → Result (String × String)
  pub lookup_ip : ℕ → String → Result (List Ip)
  -- client.Do: a status and the start of the body, or an error
  pub post : ℕ → Post → Result (ℕ × String)
  -- the hexadecimal HMAC-SHA256 of "<seconds>.<body>" under a key
  pub hmac : String → ℕ → Value → String
  -- a time in RFC 3339
  pub rfc3339 : ℕ → String
  pub error_text : Error → String
