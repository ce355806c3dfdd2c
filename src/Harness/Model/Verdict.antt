-- ===== src/Harness/Model/Verdict.antt =====
-- Why a model call with retries ended.
use jadeenvoy.Errors.{Error, Result, canceled, err, ok, retryable, wrap}
use jadeenvoy.Harness.Model.{ModelResult}
use jadeenvoy.Harness.Settings.{Settings}
use jadeenvoy.Prelude.{decimal, false, length, true, ℕ, ◌+◌, ◌<>◌, ◌≡◌}
use jadeenvoy.World.{World, M}

-- The answer of a call from `w` that may make `k` requests: a result; an error that is not worth a
-- retry; or, after all `k` requests, a last error that was.
pub data Verdict (h : Settings) (k : ℕ) (w : World) : Result ModelResult × World → Type 0 where
  succeeded : {r : ModelResult} {w' : World} → Verdict h k w (ok r, w')
  permanent : {e : Error} {w' : World} → retryable e ≡ false → Verdict h k w (err e, w')
  exhausted :
      {last : Error} {w' : World}
      → retryable last ≡ true
      → length w'.requests ≡ k + length w.requests
      → Verdict h k w (
        err (wrap ("model call failed after " <> (decimal h.max_retries <> " retries")) last),
        w',
      )

failure : {A : Type 0} → Result A → Error
failure (ok a) = canceled
failure (err e) = e

-- The errors of an action are not worth a retry.
record FailsForGood {A : Type 0} (m : M A) : Type 0 where
  at : (w : World) (e : Error) → (m w).0 ≡ err e → retryable e ≡ false
