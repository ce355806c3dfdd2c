-- ===== src/Harness/Turn.antt =====
-- RunThread of internal/harness/harness.go: one turn of a session's thread.
pub mod Bounds
pub mod Tools
pub mod Limit
pub mod Returns
pub mod Ends
use jadeenvoy.Broker.{publish}
use jadeenvoy.Errors.{err, ok, wrap}
use jadeenvoy.Harness.Agent.{
  Outcome, Turn, document, finished, goes_on, idle_payload, input_of, needs_approval, paused,
  required_action_payload, requires_action_idle_payload, tool_use_payload, tool_use_type,
  violation_payload, with_input,
}
use jadeenvoy.Harness.Approvals.{
  execute_server_tool, publish_tool_result, resolve_pending_tool_confirmations,
  tool_result_event_type,
}
use jadeenvoy.Harness.Compaction.{maybe_compact}
use jadeenvoy.Harness.CustomTools.{is_custom_tool}
use jadeenvoy.Harness.Guardrails.{is_empty, tool_allowed_by_guardrails}
use jadeenvoy.Harness.Mcp.{is_mcp_tool, provider_tool_defs}
use jadeenvoy.Harness.Messages.{build_messages}
use jadeenvoy.Harness.Model.{ModelResult, PendingToolUse, call_model_with_retry, check_ctx}
use jadeenvoy.Harness.Settings.{Settings}
use jadeenvoy.Json.{Raw, Value, array, num, object, str}
use jadeenvoy.Prelude.{
  List, String, [], if◌then◌else◌, not, pos, some, str_eq, suc, true, zero, ℕ, ◌++◌, ◌+◌, ◌∷◌,
}
use jadeenvoy.Provider.{ChatRequest, Message}
use jadeenvoy.Rows.{
  EventType, Status, agent_guardrail_violation, agent_mcp_tool_result, agent_message,
  agent_tool_result, idle, requires_action, running, session_status_idle,
  session_status_requires_action, session_status_running, span_model_request_end,
  span_model_request_start, type_text,
}
use jadeenvoy.Store.Session.{get_session, update_session_status, update_session_usage}
use jadeenvoy.World.{Env, M, attempt, fail, ignore, pure, turn, ◌>>=◌, ◌>>◌}

module _ (env : Env) (h : Settings) (t : Turn) where
  -- A publish on the turn's context whose error is dropped.
  pub announce : EventType → Raw → M (Unit {0})
  announce type payload = ignore (publish env turn t.session type t.thread payload)

  pub change_status : Status → M (Unit {0})
  change_status s = ignore (update_session_status env turn t.session s)

  -- A call that the guardrails forbid: the model reads the reason as the tool's error.
  unfoldable pub refuse_tool : PendingToolUse → String → String → M Outcome
  unfolding announce violation_payload
  refuse_tool pt event_id reason = do
    announce agent_guardrail_violation (some (violation_payload pt reason))
    publish_tool_result env turn h.builtin t.mcp t.session t.thread
        (if is_mcp_tool t.mcp pt.name then agent_mcp_tool_result else agent_tool_result) pt.id
        event_id (reason, true)
    pure goes_on

  -- A call that the client runs: the loop stops until it posts the result.
  unfoldable pub hand_to_client : PendingToolUse → M Outcome
  unfolding announce required_action_payload change_status
  hand_to_client pt = do
    change_status requires_action
    ignore (get_session env turn t.session)
    announce session_status_requires_action
        (with_input (document env pt.input_json) (required_action_payload t.session pt))
    pure paused

  unfoldable pub wait_for_approval : String → M Outcome
  unfolding announce change_status
  wait_for_approval event_id = do
    change_status idle
    announce session_status_idle (some (requires_action_idle_payload event_id))
    pure paused

  unfoldable pub run_tool : PendingToolUse → String → M Outcome
  run_tool pt event_id = do
    answer ← execute_server_tool env turn h.builtin t.mcp pt.name (input_of env pt)
    publish_tool_result env turn h.builtin t.mcp t.session t.thread
        (tool_result_event_type (tool_use_type t pt.name)) pt.id event_id answer
    pure goes_on

  -- One round of the loop over the tool uses.
  unfoldable pub handle_tool : PendingToolUse → M Outcome
  handle_tool pt = do
    ev ← publish env turn t.session (tool_use_type t pt.name) t.thread (
        with_input (input_of env pt)
          (tool_use_payload (tool_use_type t pt.name) pt (needs_approval t pt.name)))
    let (allowed, reason) = tool_allowed_by_guardrails t.agent.guardrails pt.name
    if not allowed
        then refuse_tool pt ev.id reason
        else if is_custom_tool t.custom pt.name
        then hand_to_client pt
        else if needs_approval t pt.name
        then wait_for_approval ev.id
        else run_tool pt ev.id

  unfoldable pub handle_tools : List PendingToolUse → M Outcome
  handle_tools [] = pure goes_on
  handle_tools (pt ∷ pts) = do
    o ← handle_tool pt
    elim o [ goes_on ↦ handle_tools pts | paused ↦ pure paused | finished s ↦ pure (finished s) ]

  model_request : List Message → ChatRequest
  model_request messages = record {
    model = t.agent.model;
    system = t.agent.system;
    messages = messages;
    tools = (h.builtin ++ t.custom) ++ provider_tool_defs t.mcp;
    max_tokens = 4096;
  }

  start_payload : ℕ → Value
  start_payload step = object (
      ("type", str (type_text span_model_request_start))
      ∷ ("model", str t.agent.model)
      ∷ ("step", num (pos step))
      ∷ [])

  end_payload : ℕ → ModelResult → Value
  end_payload step r = object (
      ("type", str (type_text span_model_request_end))
      ∷ ("model", str t.agent.model)
      ∷ ("step", num (pos step))
      ∷ ("finish_reason", str r.stop_reason)
      ∷ (
        "model_usage",
        object (
            ("input_tokens", num (pos r.usage.input_tokens))
            ∷ ("output_tokens", num (pos r.usage.output_tokens))
            ∷ ("cache_creation_input_tokens", num (pos r.usage.cache_creation_input_tokens))
            ∷ ("cache_read_input_tokens", num (pos r.usage.cache_read_input_tokens))
            ∷ []),
      )
      ∷ [])

  -- The agent's text, where there is one.
  pub say : String → M (Unit {0})
  unfolding announce
  say text =
      if str_eq text ""
      then pure tt
      else announce agent_message (
          some (
            object (
              ("type", str (type_text agent_message))
              ∷ ("content", array (object (("type", str "text") ∷ ("text", str text) ∷ []) ∷ []))
              ∷ [])))

  pub after_model : ℕ → ModelResult → M Outcome
  unfolding announce say end_payload
  after_model step r = do
    announce span_model_request_end (some (end_payload step r))
    ignore (
        update_session_usage env turn t.session r.usage.input_tokens r.usage.output_tokens
          r.usage.cache_creation_input_tokens r.usage.cache_read_input_tokens)
    say r.text
    if is_empty r.tools
        then pure (finished (if str_eq r.stop_reason "" then "end_turn" else r.stop_reason))
        else handle_tools r.tools

  -- One step: the history, a model call, and the tools it asks for.
  unfoldable pub run_step : ℕ → M Outcome
  unfolding announce model_request start_payload after_model
  run_step step = do
    check_ctx env
    built ← attempt (build_messages env turn t.session t.thread)
    messages ← elim built [ ok ms ↦ pure ms | err e ↦ fail (wrap "build messages" e) ]
    announce span_model_request_start (some (start_payload step))
    r ← call_model_with_retry env turn h t.session (model_request messages)
    after_model step r

  -- The loop over the steps, with `left` of MaxSteps to go.
  unfoldable pub run_steps : ℕ → ℕ → M Outcome
  run_steps zero step = pure (finished "max_turns")
  run_steps (suc left) step = do
    o ← run_step step
    elim o [
      | goes_on ↦ run_steps left (step + 1)
      | paused ↦ pure paused
      | finished s ↦ pure (finished s)
    ]

  unfoldable pub end_turn : Outcome → M (Unit {0})
  unfolding announce change_status
  end_turn goes_on = pure tt
  end_turn paused = pure tt
  end_turn (finished reason) = do
    change_status idle
    announce session_status_idle (some (idle_payload reason))

  -- The turn from the change to running.
  unfoldable pub run_loop : M (Unit {0})
  unfolding announce change_status
  run_loop = do
    change_status running
    announce session_status_running
        (some (object (("type", str (type_text session_status_running)) ∷ [])))
    ignore (maybe_compact env turn h t.session t.thread t.agent.model)
    resolved ←
        attempt (resolve_pending_tool_confirmations env turn h.builtin t.mcp t.session t.thread)
    elim resolved [ ok u ↦ pure tt | err e ↦ fail (wrap "resolve tool confirmations" e) ]
    o ← run_steps h.max_steps 0
    end_turn o
