-- ===== src/Harness/Turn/Limit.antt =====
-- The model requests of the loop of RunThread in internal/harness/harness.go.
use jadeenvoy.Broker.Silent.{OfCalls}
use jadeenvoy.Errors.{Result, err, ok, wrap}
use jadeenvoy.Harness.Agent.{Outcome, Turn, finished, goes_on, paused}
use jadeenvoy.Harness.Approvals.Calls.{resolve_pending-OfCalls}
use jadeenvoy.Harness.Model.Attempts.{call_model_with_retry-bound, check_ctx-OfCalls}
use jadeenvoy.Harness.Requests.{
  MakesAtMost, UpTo, makes-bind, makes-ignore, makes-more, makes-no_request, makes-none,
}
use jadeenvoy.Harness.Settings.{Settings}
use jadeenvoy.Harness.Turn.{end_turn, run_loop, run_step, run_steps}
use jadeenvoy.Harness.Turn.Bounds.{maybe_compact-bound}
use jadeenvoy.Harness.Turn.Tools.{
  after_model-OfCalls, announce-OfCalls, before_model-OfCalls, built-OfCalls, change_status-OfCalls,
}
use jadeenvoy.Json.{Raw}
use jadeenvoy.Prelude.{List, String, arith, suc, zero, ℕ, ◌*◌, ◌+◌}
use jadeenvoy.Provider.{ChatRequest}
use jadeenvoy.Rows.{idle, running}
use jadeenvoy.World.{Env, M, fail, pure, turn}
use jadeenvoy.World.Keeps.{Keeps, Keeps-attempt, Keeps-bind, Keeps-fail, Keeps-pure}
use native.Mathlib.Nat.{suc-mul}

pub checked-OfCalls :
    (R : List ChatRequest → List (String × Raw) → Type 0) (text : String) (res : Result (Unit {0}))
    → Keeps
        (OfCalls R)
        (elim res as (λ x. M (Unit {0})) [ ok u ↦ pure tt | err e ↦ fail (wrap text e) ])
checked-OfCalls R text (ok u) = Keeps-pure tt
checked-OfCalls R text (err e) = Keeps-fail _

module _ (env : Env) (h : Settings) (t : Turn) where
  run_step-bound : (step : ℕ) → MakesAtMost (h.max_retries + 1) (run_step env h t step)
  unfolding run_step
  run_step-bound step = makes-more _ (omega arith) (
      makes-bind _ _ (makes-none _ (check_ctx-OfCalls env turn h t.session)) (λ u.
        makes-bind _ _ (makes-none _ (λ R. before_model-OfCalls R env h t)) (λ res.
          makes-bind _ _ (makes-none _ (λ R. built-OfCalls R env h t res)) (λ ms.
            makes-bind _ _ (makes-none _ (λ R. announce-OfCalls R env h t _ _)) (λ v.
              makes-bind _ _ (call_model_with_retry-bound env turn h t.session _) (λ r.
                makes-no_request _
                  (λ n. after_model-OfCalls (UpTo n) env h t (λ nm f rs xs i k. k) step r)))))))

  run_steps-bound :
      (left step : ℕ) → MakesAtMost (left * (h.max_retries + 1)) (run_steps env h t left step)
  unfolding run_steps
  run_steps-bound zero step = makes-more _ (omega arith) (makes-none _ (λ R. Keeps-pure _))
  run_steps-bound (suc left) step =
      makes-more _ (omega (arith, suc-mul left (h.max_retries + 1)))
        (makes-bind _ _ (run_step-bound step) (after (run_steps-bound left (step + 1))))
    where
      after :
          MakesAtMost (left * (h.max_retries + 1)) (run_steps env h t left (step + 1))
          → (o : Outcome)
          → MakesAtMost (left * (h.max_retries + 1)) (elim o as (λ x. M Outcome) [
            | goes_on ↦ run_steps env h t left (step + 1)
            | paused ↦ pure paused
            | finished s ↦ pure (finished s)
          ])
      after rest goes_on = rest
      after rest paused = makes-more _ (omega arith) (makes-none _ (λ R. Keeps-pure paused))
      after rest (finished s) =
          makes-more _ (omega arith) (makes-none _ (λ R. Keeps-pure (finished s)))

  end_turn-OfCalls :
      (R : List ChatRequest → List (String × Raw) → Type 0) (o : Outcome)
      → Keeps (OfCalls R) (end_turn env h t o)
  unfolding end_turn
  end_turn-OfCalls R goes_on = Keeps-pure tt
  end_turn-OfCalls R paused = Keeps-pure tt
  end_turn-OfCalls R (finished reason) =
      Keeps-bind _ _ (change_status-OfCalls R env h t idle) (λ u. announce-OfCalls R env h t _ _)

  pub run_loop-bound : MakesAtMost (h.max_steps * (h.max_retries + 1) + 1) (run_loop env h t)
  unfolding run_loop
  run_loop-bound = makes-more _ (omega arith) (
      makes-bind _ _ (makes-none _ (λ R. change_status-OfCalls R env h t running)) (λ a.
        makes-bind _ _ (makes-none _ (λ R. announce-OfCalls R env h t _ _)) (λ b.
          makes-bind _ _
            (makes-ignore _ (maybe_compact-bound env turn h t.session t.thread t.agent.model))
            (λ c.
              makes-bind _ _
                (makes-no_request _ (λ n. Keeps-attempt _ (
                  resolve_pending-OfCalls (UpTo n) env turn h.builtin t.mcp t.session t.thread
                    (λ nm rs xs i k. k))))
                (λ res.
                  makes-bind _ _
                    (makes-none _ (λ R. checked-OfCalls R "resolve tool confirmations" res))
                    (λ d.
                      makes-bind _ _ (run_steps-bound h.max_steps 0)
                        (λ o. makes-none _ (λ R. end_turn-OfCalls R o))))))))
