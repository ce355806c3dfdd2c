-- ===== src/Harness/Turn/Tools.antt =====
-- The tools that the loop of RunThread in internal/harness/harness.go runs.
use jadeenvoy.Broker.Silent.{
  OfCalls, call_rules, get_session-OfCalls, publish-OfCalls, update_session_status-OfCalls,
  update_session_usage-OfCalls,
}
use jadeenvoy.Errors.{Result, err, ok, wrap}
use jadeenvoy.Harness.Agent.{Outcome, Turn, finished, goes_on, needs_approval, paused}
use jadeenvoy.Harness.Approvals.Calls.{
  Runs, execute_server_tool-OfCalls, publish_tool_result-OfCalls,
}
use jadeenvoy.Harness.CustomTools.{is_custom_tool}
use jadeenvoy.Harness.Guardrails.{tool_allowed_by_guardrails}
use jadeenvoy.Harness.Messages.{build_messages}
use jadeenvoy.Harness.Model.{ModelResult, PendingToolUse}
use jadeenvoy.Harness.Model.Attempts.{Asks, call_model_with_retry-OfCalls, check_ctx-OfCalls}
use jadeenvoy.Harness.Permissions.{asks}
use jadeenvoy.Harness.Settings.{Settings}
use jadeenvoy.Harness.Turn.{
  after_model, announce, change_status, hand_to_client, handle_tool, handle_tools, refuse_tool,
  run_step, run_steps, run_tool, wait_for_approval, say,
}
use jadeenvoy.Harness.Turn.Bounds.{build_messages-OfCalls}
use jadeenvoy.Json.{Raw}
use jadeenvoy.Prelude.{
  All, All-append, Bool, List, String, [], ap, arith, false, if◌then◌else◌, not, refl, str_eq, suc,
  sym, true, zero, ℕ, ◌++◌, ◌+◌, ◌∙◌, ◌∷◌, ◌≡◌,
}
use jadeenvoy.Provider.{ChatRequest, Message}
use jadeenvoy.Rows.{EventType, Status}
use jadeenvoy.World.{Env, M, World, attempt, fail, pure, turn}
use jadeenvoy.World.Keeps.{
  Keeps, Keeps-attempt, Keeps-bind, Keeps-fail, Keeps-if, Keeps-pure, Keeps-test,
}
use mathlib.Core.List.{append-nil, append_assoc}

-- A tool that the loop may run: the guardrails allow it, it is the server's, and it waits for nobody.
pub record IsFree (t : Turn) (name : String) : Type 0 where
  pub allowed : (tool_allowed_by_guardrails t.agent.guardrails name).0 ≡ true
  pub server_side : is_custom_tool t.custom name ≡ false
  pub unattended : needs_approval t name ≡ false

not-false : (b : Bool) → not b ≡ false → b ≡ true
not-false true h = refl
not-false false h = absurd (ground (arith, h))

module _ (R : List ChatRequest → List (String × Raw) → Type 0) (env : Env) (h : Settings)
    (t : Turn) where
  pub announce-OfCalls :
      (type : EventType) (payload : Raw) → Keeps (OfCalls R) (announce env h t type payload)
  unfolding announce
  announce-OfCalls type payload = search (call_rules, publish-OfCalls)

  pub change_status-OfCalls : (s : Status) → Keeps (OfCalls R) (change_status env h t s)
  unfolding change_status
  change_status-OfCalls s = search (call_rules, update_session_status-OfCalls)

  refuse_tool-OfCalls :
      (pt : PendingToolUse) (event_id reason : String)
      → Keeps (OfCalls R) (refuse_tool env h t pt event_id reason)
  unfolding refuse_tool
  refuse_tool-OfCalls pt event_id reason =
      search (call_rules, announce-OfCalls, publish_tool_result-OfCalls)

  hand_to_client-OfCalls : (pt : PendingToolUse) → Keeps (OfCalls R) (hand_to_client env h t pt)
  unfolding hand_to_client
  hand_to_client-OfCalls pt =
      search (call_rules, announce-OfCalls, change_status-OfCalls, get_session-OfCalls)

  wait_for_approval-OfCalls :
      (event_id : String) → Keeps (OfCalls R) (wait_for_approval env h t event_id)
  unfolding wait_for_approval
  wait_for_approval-OfCalls event_id = search (call_rules, announce-OfCalls, change_status-OfCalls)

  run_tool-OfCalls :
      (pt : PendingToolUse) (event_id : String)
      → Runs R pt.name
      → Keeps (OfCalls R) (run_tool env h t pt event_id)
  unfolding run_tool
  run_tool-OfCalls pt event_id runs =
      search (call_rules, execute_server_tool-OfCalls, publish_tool_result-OfCalls, runs)

  handle_tool-OfCalls :
      ((name : String) → IsFree t name → Runs R name)
      → (pt : PendingToolUse) → Keeps (OfCalls R) (handle_tool env h t pt)
  unfolding handle_tool
  handle_tool-OfCalls runs pt =
      Keeps-bind _ _ (publish-OfCalls R env turn _ _ _ _)
        (λ ev. judged ev.id (tool_allowed_by_guardrails t.agent.guardrails pt.name) refl)
    where
      judged :
          (id : String) (verdict : Bool × String)
          → tool_allowed_by_guardrails t.agent.guardrails pt.name ≡ verdict
          → Keeps (OfCalls R) (
              if not verdict.0
              then refuse_tool env h t pt id verdict.1
              else if is_custom_tool t.custom pt.name
              then hand_to_client env h t pt
              else if needs_approval t pt.name
              then wait_for_approval env h t id
              else run_tool env h t pt id)
      judged id verdict e =
          Keeps-test (not verdict.0) _ _ (λ denied. refuse_tool-OfCalls pt id verdict.1)
            (λ allowed.
              Keeps-test (is_custom_tool t.custom pt.name) _ _ (λ custom. hand_to_client-OfCalls pt)
                (λ server_side.
                  Keeps-test (needs_approval t pt.name) _ _ (λ asks. wait_for_approval-OfCalls id)
                    (λ free. run_tool-OfCalls pt id (
                      runs pt.name (record {
                        allowed = ap (λ (p : Bool × String). p.0) e ∙ not-false verdict.0 allowed;
                        server_side = server_side;
                        unattended = free;
                      })))))

  pub handle_tools-OfCalls :
      ((name : String) → IsFree t name → Runs R name)
      → (pts : List PendingToolUse) → Keeps (OfCalls R) (handle_tools env h t pts)
  unfolding handle_tools
  handle_tools-OfCalls runs [] = Keeps-pure goes_on
  handle_tools-OfCalls runs (pt ∷ pts) =
      Keeps-bind _ _ (handle_tool-OfCalls runs pt) (after (handle_tools-OfCalls runs pts))
    where
      after :
          Keeps (OfCalls R) (handle_tools env h t pts)
          → (o : Outcome)
          → Keeps (OfCalls R) (elim o as (λ x. M Outcome) [
            | goes_on ↦ handle_tools env h t pts
            | paused ↦ pure paused
            | finished s ↦ pure (finished s)
          ])
      after rest goes_on = rest
      after rest paused = Keeps-pure paused
      after rest (finished s) = Keeps-pure (finished s)

  say-OfCalls : (text : String) → Keeps (OfCalls R) (say env h t text)
  unfolding say
  say-OfCalls text = Keeps-if (str_eq text "") _ _ (Keeps-pure tt) (announce-OfCalls _ _)

  pub after_model-OfCalls :
      ((name : String) → IsFree t name → Runs R name)
      → (step : ℕ) (r : ModelResult) → Keeps (OfCalls R) (after_model env h t step r)
  unfolding after_model
  after_model-OfCalls runs step r = search (
    call_rules, announce-OfCalls, update_session_usage-OfCalls, say-OfCalls, handle_tools-OfCalls,
    runs,
  )

  -- The messages of a step, with the error of their building.
  pub built-OfCalls :
      (res : Result (List Message))
      → Keeps (OfCalls R) (elim res as (λ x. M (List Message)) [
        | ok ms ↦ pure ms
        | err e ↦ fail (wrap "build messages" e)
      ])
  built-OfCalls (ok ms) = Keeps-pure ms
  built-OfCalls (err e) = Keeps-fail _

  pub before_model-OfCalls :
      Keeps (OfCalls R) (attempt (build_messages env turn t.session t.thread))
  before_model-OfCalls = Keeps-attempt _ (build_messages-OfCalls R env turn t.session t.thread)

  pub run_step-OfCalls :
      ((name : String) → IsFree t name → Runs R name)
      → Asks R
      → (step : ℕ) → Keeps (OfCalls R) (run_step env h t step)
  unfolding run_step
  run_step-OfCalls runs asks step = Keeps-bind _ _ (check_ctx-OfCalls env turn h t.session R) (λ u.
      Keeps-bind _ _ before_model-OfCalls (λ res. Keeps-bind _ _ (built-OfCalls res) (λ ms.
        Keeps-bind _ _ (announce-OfCalls _ _) (λ v.
          Keeps-bind _ _ (call_model_with_retry-OfCalls env turn h t.session R asks _)
            (λ r. after_model-OfCalls runs step r)))))

  pub run_steps-OfCalls :
      ((name : String) → IsFree t name → Runs R name)
      → Asks R
      → (left step : ℕ) → Keeps (OfCalls R) (run_steps env h t left step)
  unfolding run_steps
  run_steps-OfCalls runs asks zero step = Keeps-pure _
  run_steps-OfCalls runs asks (suc left) step =
      Keeps-bind _ _ (run_step-OfCalls runs asks step)
        (after (run_steps-OfCalls runs asks left (step + 1)))
    where
      after :
          Keeps (OfCalls R) (run_steps env h t left (step + 1))
          → (o : Outcome)
          → Keeps (OfCalls R) (elim o as (λ x. M Outcome) [
            | goes_on ↦ run_steps env h t left (step + 1)
            | paused ↦ pure paused
            | finished s ↦ pure (finished s)
          ])
      after rest goes_on = rest
      after rest paused = Keeps-pure paused
      after rest (finished s) = Keeps-pure (finished s)

-- The tools run since `base` are free.
abbrev pub OnlyFree : Turn → List (String × Raw) → List ChatRequest → List (String × Raw) → Type 0
OnlyFree t base rs xs =
    (new : List (String × Raw)) × (xs ≡ base ++ new) × All (λ c. IsFree t c.0) new

OnlyFree-run :
    (t : Turn) (base : List (String × Raw)) (name : String)
    → IsFree t name
    → Runs (OnlyFree t base) name
OnlyFree-run t base name free rs xs input (new, same, all) = (
  new ++ (name, input) ∷ [],
  rw same (append_assoc base new ((name, input) ∷ [])),
  All-append (λ c. IsFree t c.0) new ((name, input) ∷ []) all (free, tt),
)

-- Whatever the model asks for in the loop of a turn, every tool that the loop runs is one that the
-- guardrails allow, that is not the client's, and that needs no approval.
pub run_steps-OnlyFree :
    (env : Env) (h : Settings) (t : Turn) (left step : ℕ) (w : World)
    → OnlyFree t w.executed [] (run_steps env h t left step w).1.executed
run_steps-OnlyFree env h t left step w =
    (run_steps-OfCalls (OnlyFree t w.executed) env h t (OnlyFree-run t w.executed)
        (λ rs xs req k. k) left step).at
      w ([], sym (append-nil w.executed), tt)
