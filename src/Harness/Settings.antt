-- ===== src/Harness/Settings.antt =====
-- The fields of the struct Harness in internal/harness/harness.go that hold settings; a limit that
-- the source compares with <= 0 is 0 here when it is not positive.
use jadeenvoy.Harness.Approvals.{Registry}
use jadeenvoy.Prelude.{List, Option, String, ℕ}

pub record Settings : Type 0 where
  pub max_steps : ℕ
  pub compact_threshold_tokens : ℕ
  pub keep_recent_turns : ℕ
  pub max_retries : ℕ
  pub retry_backoff : ℕ
  pub builtin : Registry
  -- VaultResolveToken, by tenant, vaults and host
  pub resolve_token : Option (String → List String → String → String)
