-- ===== src/Tests/Turn.antt =====
-- A turn at a concrete session.
use jadeenvoy.Harness.Approvals.Once.{IsResultOf, resolve_each-once}
use jadeenvoy.Broker.{dispatch, publish}
use jadeenvoy.Errors.{ok}
use jadeenvoy.Harness.Agent.{Turn, agent_config, idle_payload}
use jadeenvoy.Harness.Approvals.{
  resolve_pending_tool_confirmations, collect_pending_confirmations, filter_thread_events,
  is_pending, resolve_each, PendingConfirmation, collect_resolved_tool_use_events,
  tool_result_event_type, tool_result_payload,
}
use jadeenvoy.Harness.Compaction.{maybe_compact, stream_model}
use jadeenvoy.Harness.Mcp.{connect_mcp, decode_servers}
use jadeenvoy.Harness.Messages.{build_messages, messages_of}
use jadeenvoy.Harness.Model.{
  ModelResult, accumulate, call_model_from, call_model_once, call_model_with_retry, check_ctx,
  parse_model_id,
}
use jadeenvoy.Harness.Model.Verdict.{Verdict}
use jadeenvoy.Harness.Permissions.{no_toolsets}
use jadeenvoy.Harness.Settings.{Settings}
use jadeenvoy.Harness.Thread.{close_turn, run_body, run_thread}
use jadeenvoy.Harness.Thread.Ends.{run_thread-Settled}
use jadeenvoy.Harness.Thread.Requests.{run_thread-bound}
use jadeenvoy.Harness.Turn.{end_turn, handle_tools, run_loop, run_step, run_steps}
use jadeenvoy.Harness.Turn.Tools.{OnlyFree, run_steps-OnlyFree}
use jadeenvoy.Prelude.{
  List, Option, [], leb, length, none, refl, some, ◌*◌, ◌+◌, ◌∷◌, ◌≡◌, ◌≤◌, false,
}
use jadeenvoy.Provider.{
  ChatEvent, ChatRequest, stop_reason, text_delta, tool_use_delta, tool_use_start,
}
use jadeenvoy.Rows.{Status, find_session, running, EventRow, agent_tool_result, agent_tool_use}
use jadeenvoy.Store.Event.{append_event, append_tx, commit_tx, list_events, new_event}
use jadeenvoy.Store.Session.{
  get_session, new_session, or_not_found, update_row, update_session_status, update_session_usage,
}
use jadeenvoy.Store.Settled.{Settled}
use jadeenvoy.Tests.Fixtures.{blank, plain, quiet, no_fields}
use jadeenvoy.World.{Env, World, set_db, turn, ◌>>=◌}

abbrev settings : Settings
settings = record {
  max_steps = 2;
  compact_threshold_tokens = 0;
  keep_recent_turns = 0;
  max_retries = 1;
  retry_backoff = 0;
  builtin = [];
  resolve_token = none;
}

-- The world after the creation of the session "x".
abbrev created : World
created = set_db (record { sessions = new_session "x" 0 plain ∷ []; events = [] }) blank

abbrev request : ChatRequest
request = record { model = "m"; system = ""; messages = []; tools = []; max_tokens = 4096 }

abbrev answer : List ChatEvent
answer =
    text_delta "he"
    ∷ tool_use_start "id" "read"
    ∷ tool_use_delta "id" "{}"
    ∷ text_delta "y"
    ∷ stop_reason "tool_use" (record {
      input_tokens = 3;
      output_tokens = 1;
      cache_creation_input_tokens = 0;
      cache_read_input_tokens = 0;
    })
    ∷ []

abbrev read_answer : ModelResult
read_answer = record {
  text = "hey";
  tools = record { id = "id"; name = "read"; input_json = "{}" } ∷ [];
  usage = record {
    input_tokens = 3;
    output_tokens = 1;
    cache_creation_input_tokens = 0;
    cache_read_input_tokens = 0;
  };
  stop_reason = "tool_use";
}

run_thread-bound_example :
    length (run_thread quiet settings "x" "" created).1.requests ≤ 2 * (1 + 1) + 1 + 0
run_thread-bound_example = run_thread-bound quiet settings "x" "" created

abbrev the_turn : Turn
the_turn = record {
  session = "x";
  thread = "primary";
  agent = record { model = "m"; system = ""; tools = none; guardrails = none };
  custom = [];
  permissions = no_toolsets;
  mcp = none;
}

run_steps-OnlyFree_example :
    OnlyFree the_turn [] [] (run_steps quiet settings the_turn 2 0 created).1.executed
run_steps-OnlyFree_example = run_steps-OnlyFree quiet settings the_turn 2 0 created

run_thread-Settled_example : Settled "x" (run_thread quiet settings "x" "" created).1
run_thread-Settled_example =
    run_thread-Settled quiet settings "x" "" created (λ n. refl) (λ n. refl)

abbrev status_in : World → Option Status
status_in w = elim (find_session "x" w.db.sessions) [ none ↦ none | some r ↦ some r.status ]

-- An interrupt that comes with the last two calls of the turn: the session stays running.
abbrev late : Env
late = record quiet { ctx_done = λ n. leb 14 n }

left_running : status_in (run_thread late settings "x" "" created).1 ≡ some running
unfolding run_thread run_body run_loop run_steps run_step handle_tools end_turn close_turn
    get_session or_not_found agent_config parse_model_id connect_mcp decode_servers
    update_session_status update_row publish append_event commit_tx append_tx new_event dispatch
    maybe_compact resolve_pending_tool_confirmations list_events check_ctx build_messages
    messages_of call_model_with_retry call_model_from call_model_once stream_model accumulate
    update_session_usage idle_payload ◌>>=◌ new_session resolve_each collect_pending_confirmations
    filter_thread_events is_pending
left_running = refl

-- A call "x" that the user confirmed, and its result.
abbrev waiting : PendingConfirmation
waiting = record {
  event_id = "x";
  event_type = agent_tool_use;
  model_tool_use_id = "call";
  name = "read";
  input = some no_fields;
}

abbrev result_row : EventRow
result_row = record {
  id = "xx";
  session_id = "x";
  thread_id = "primary";
  seq = 2;
  type = agent_tool_result;
  payload = tool_result_payload agent_tool_result "call" "x" "done" false;
  processed_at = some 5;
  created_at = 5;
}

result_row-IsResultOf : IsResultOf waiting result_row
unfolding tool_result_event_type
result_row-IsResultOf = record {
  content = "done";
  failed = false;
  type_is = refl;
  payload_is = refl;
}

resolve_each-once_example :
    resolve_each quiet turn [] none "x" "primary"
      (("x", record { result = "allow"; deny_message = "" }) ∷ [])
      (collect_resolved_tool_use_events (result_row ∷ []))
      (waiting ∷ [])
      created
    ≡ (ok tt, created)
resolve_each-once_example =
    resolve_each-once quiet turn [] none "x" "primary" waiting
      (("x", record { result = "allow"; deny_message = "" }) ∷ []) [] [] result_row created refl
      result_row-IsResultOf
