-- ===== src/Harness/Model/Attempts.antt =====
-- How often a model call is made, and what its errors mean.
use jadeenvoy.Harness.Permissions.{asks}
use jadeenvoy.Broker.Silent.{
  OfCalls, ask-OfCalls, call_rules, publish-OfCalls, update_session_status-OfCalls,
}
use jadeenvoy.Errors.{Error, retryable}
use jadeenvoy.Harness.Compaction.{stream_model}
use jadeenvoy.Harness.Model.{
  call_model_from, call_model_once, check_ctx, reschedule, call_model_with_retry,
}
use jadeenvoy.Harness.Requests.{
  MakesAtMost, makes-bind, makes-none, makes-attempt, makes-if, makes-more, makes-answer,
}
use jadeenvoy.Harness.Settings.{Settings}
use jadeenvoy.Json.{Raw}
use jadeenvoy.Prelude.{List, String, [], arith, length-append, suc, zero, ℕ, ◌+◌, ◌∷◌, ◌++◌}
use jadeenvoy.Provider.{ChatRequest}
use jadeenvoy.World.{Ctx, Env, ◌>>=◌, pure}
use jadeenvoy.World.Keeps.{
  Keeps, Keeps-lift, Keeps-fail, Keeps-pure, Keeps-answer, Keeps-attempt, Keeps-bind, Keeps-if,
  Keeps-modify,
}

pub stream_model-once : (env : Env) (req : ChatRequest) → MakesAtMost 1 (stream_model env req)
unfolding stream_model ◌>>=◌
stream_model-once env req = record { at = λ w. omega (arith, length-append w.requests (req ∷ [])) }

pub call_model_once-once : (env : Env) (req : ChatRequest) → MakesAtMost 1 (call_model_once env req)
unfolding call_model_once
call_model_once-once env req =
    makes-bind (stream_model env req) _ (stream_model-once env req)
      (λ res. makes-none _ (λ R. Keeps-lift _))

-- A model request keeps `R`.
abbrev pub Asks : (List ChatRequest → List (String × Raw) → Type 0) → Type 0
Asks R =
    (rs : List ChatRequest) (xs : List (String × Raw)) (req : ChatRequest)
    → R rs xs
    → R (rs ++ req ∷ []) xs

call_model_once-OfCalls :
    (R : List ChatRequest → List (String × Raw) → Type 0) (env : Env) (req : ChatRequest)
    → Asks R
    → Keeps (OfCalls R) (call_model_once env req)
unfolding call_model_once stream_model
call_model_once-OfCalls R env req asks =
    Keeps-bind _ _
      (Keeps-bind _ _ (Keeps-modify _ (λ w h. asks w.requests w.executed req h))
        (λ u. ask-OfCalls R _))
      (λ res. Keeps-lift _)

module _ (env : Env) (ctx : Ctx) (h : Settings) (session : String) where
  pub check_ctx-OfCalls :
      (R : List ChatRequest → List (String × Raw) → Type 0) → Keeps (OfCalls R) (check_ctx env)
  unfolding check_ctx
  check_ctx-OfCalls R = search (call_rules, ask-OfCalls)

  pub reschedule-OfCalls :
      (n : ℕ) (e : Error) (R : List ChatRequest → List (String × Raw) → Type 0)
      → Keeps (OfCalls R) (reschedule env ctx h session n e)
  unfolding reschedule
  reschedule-OfCalls n e R =
      search (call_rules, check_ctx-OfCalls, update_session_status-OfCalls, publish-OfCalls)

  call_model_from-bound :
      (req : ChatRequest) (left n : ℕ)
      → MakesAtMost (left + 1) (call_model_from env ctx h session req left n)
  unfolding call_model_from
  call_model_from-bound req zero n =
      makes-bind _ _ (makes-attempt _ (call_model_once-once env req)) (
        makes-answer pure _ (λ r. makes-none _ (λ R. Keeps-pure r))
          (λ e. makes-none _ (λ R. search call_rules)))
  call_model_from-bound req (suc left) n = makes-more _ (omega arith) (
      makes-bind {b = left + 1} _ _ (makes-attempt _ (call_model_once-once env req)) (
        makes-answer pure _ (λ r. makes-more _ (omega arith) (makes-none _ (λ R. Keeps-pure r)))
          (λ e.
            makes-if _ _ _
              (makes-more _ (omega arith) (
                makes-bind _ _ (makes-none _ (reschedule-OfCalls (n + 1) e))
                  (λ u. call_model_from-bound req left (n + 1))))
              (makes-more _ (omega arith) (makes-none _ (λ R. Keeps-fail e))))))

  -- A model call with retries makes at most MaxRetries + 1 requests.
  pub call_model_with_retry-bound :
      (req : ChatRequest)
      → MakesAtMost (h.max_retries + 1) (call_model_with_retry env ctx h session req)
  unfolding call_model_with_retry
  call_model_with_retry-bound req = call_model_from-bound req h.max_retries 0

  call_model_from-OfCalls :
      (R : List ChatRequest → List (String × Raw) → Type 0)
      → Asks R
      → (req : ChatRequest) (left n : ℕ)
      → Keeps (OfCalls R) (call_model_from env ctx h session req left n)
  unfolding call_model_from
  call_model_from-OfCalls R asks req zero n =
      Keeps-bind _ _ (Keeps-attempt _ (call_model_once-OfCalls R env req asks))
        (λ res. Keeps-answer res pure _ (λ r. Keeps-pure r) (λ e. search call_rules))
  call_model_from-OfCalls R asks req (suc left) n =
      Keeps-bind _ _ (Keeps-attempt _ (call_model_once-OfCalls R env req asks)) (λ res.
        Keeps-answer res pure _ (λ r. Keeps-pure r)
          (λ e.
            Keeps-if (retryable e) _ _
              (Keeps-bind _ _ (reschedule-OfCalls (n + 1) e R)
                (λ u. call_model_from-OfCalls R asks req left (n + 1)))
              (Keeps-fail e)))

  pub call_model_with_retry-OfCalls :
      (R : List ChatRequest → List (String × Raw) → Type 0)
      → Asks R
      → (req : ChatRequest) → Keeps (OfCalls R) (call_model_with_retry env ctx h session req)
  unfolding call_model_with_retry
  call_model_with_retry-OfCalls R asks req = call_model_from-OfCalls R asks req h.max_retries 0
