-- ===== src/Webhook/Dispatch/Guard.antt =====
-- deliverOne of internal/webhook/dispatcher.go: where its requests go.
use jadeenvoy.Errors.{ok}
use jadeenvoy.Prelude.{Bool, List, [], ℕ, ◌++◌, ◌∷◌, ◌≡◌}
use jadeenvoy.Webhook.Rows.{HookEnv, Post}
use jadeenvoy.Webhook.Target.{validate_webhook_url}

-- Either nothing was sent, or one request to a target that the guard lets pass.
pub data Sends (env : HookEnv) (allow : Bool) (before : List Post) : List Post → Type 0 where
  nothing : Sends env allow before before
  one :
      (p : Post) (n : ℕ)
      → validate_webhook_url env n allow p.url ≡ ok tt
      → Sends env allow before (before ++ p ∷ [])
