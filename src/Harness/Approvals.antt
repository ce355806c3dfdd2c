-- ===== src/Harness/Approvals.antt =====
-- internal/harness/approvals.go: tool calls that wait for the user's confirmation.
pub mod Calls
pub mod Once
use jadeenvoy.Broker.{publish}
use jadeenvoy.Errors.{Result, err, ok}
use jadeenvoy.Harness.Mcp.{McpSession, call_mcp, is_mcp_tool, note_call}
use jadeenvoy.Prelude.{
  Bool, List, Option, String, [], false, if◌then◌else◌, map, none, not, select, some, some_of,
  str_eq, true, ◌&&◌, ◌<>◌, ◌||◌, ◌∷◌,
}
use jadeenvoy.Provider.{ToolDef}
use jadeenvoy.Rows.{
  EventRow, EventType, agent_mcp_tool_result, agent_tool_result, type_text, agent_mcp_tool_use,
  agent_tool_use, user_tool_confirmation,
}
use jadeenvoy.Store.Event.{list_events}
use jadeenvoy.World.{Ctx, Env, M, ask, ignore, pure, ◌>>=◌, ◌>>◌}
use jadeenvoy.Json.{
  Value, Raw, as_bool, as_string, bool, bool_ok, end, get, obj, object, str, string_ok, struct_ok,
}

pub record PendingConfirmation : Type 0 where
  pub event_id : String
  pub event_type : EventType
  pub model_tool_use_id : String
  pub name : String
  pub input : Raw

pub record ToolConfirmation : Type 0 where
  pub result : String
  pub deny_message : String

abbrev pub is_server_tool_use : EventType → Bool
is_server_tool_use agent_tool_use = true
is_server_tool_use agent_mcp_tool_use = true
is_server_tool_use _ = false

abbrev pub is_tool_confirmation : EventType → Bool
is_tool_confirmation user_tool_confirmation = true
is_tool_confirmation _ = false

abbrev pub is_server_tool_result : EventType → Bool
is_server_tool_result agent_tool_result = true
is_server_tool_result agent_mcp_tool_result = true
is_server_tool_result _ = false

-- An input that is absent is {}.
abbrev or_empty : Option Value → Raw
or_empty none = some (obj end)
or_empty (some v) = some v

waits_ok : Value → Bool
waits_ok p =
    struct_ok p
    && string_ok (get "id" p)
    && string_ok (get "name" p)
    && bool_ok (get "requires_confirmation" p)
    && as_bool (get "requires_confirmation" p)

-- The events that collectPendingConfirmations takes, and what it makes of them.
unfoldable pub is_pending : EventRow → Bool
unfolding waits_ok
is_pending ev = is_server_tool_use ev.type && waits_ok ev.payload

unfoldable pub pending_of : EventRow → PendingConfirmation
pending_of ev = record {
  event_id = ev.id;
  event_type = ev.type;
  model_tool_use_id = as_string (get "id" ev.payload);
  name = as_string (get "name" ev.payload);
  input = or_empty (get "input" ev.payload);
}

unfoldable pub collect_pending_confirmations : List EventRow → List PendingConfirmation
collect_pending_confirmations events = map pending_of (select is_pending events)

confirms_ok : Value → Bool
confirms_ok p =
    struct_ok p
    && string_ok (get "tool_use_id" p)
    && string_ok (get "result" p)
    && string_ok (get "deny_message" p)
    && not (str_eq (as_string (get "tool_use_id" p)) "")

confirmation_of : Value → ToolConfirmation
confirmation_of p = record {
  result = as_string (get "result" p);
  deny_message = as_string (get "deny_message" p);
}

-- A map from event ids, the newest write first.
unfoldable pub collect_tool_confirmations :
    List EventRow → List (String × ToolConfirmation) → List (String × ToolConfirmation)
unfolding confirms_ok confirmation_of
collect_tool_confirmations [] out = out
collect_tool_confirmations (ev ∷ events) out = collect_tool_confirmations events (
    if is_tool_confirmation ev.type && confirms_ok ev.payload
    then (as_string (get "tool_use_id" ev.payload), confirmation_of ev.payload) ∷ out
    else out)

unfoldable pub find_confirmation :
    String → List (String × ToolConfirmation) → Option ToolConfirmation
find_confirmation id [] = none
find_confirmation id ((k, c) ∷ cs) = if str_eq k id then some c else find_confirmation id cs

-- What collectResolvedToolUseEvents has read: the events of the model's ids, and what is resolved.
pub record Resolution : Type 0 where
  pub model_to_event : List (String × String)
  pub resolved : List String

-- A read of a Go map gives "" on a missing key.
unfoldable pub find_text : String → List (String × String) → String
find_text k [] = ""
find_text k ((j, v) ∷ m) = if str_eq j k then v else find_text k m

note_use : EventRow → Resolution → Resolution
note_use ev r =
    if struct_ok ev.payload
      && string_ok (get "id" ev.payload)
      && not (str_eq (as_string (get "id" ev.payload)) "")
    then record r { model_to_event = (as_string (get "id" ev.payload), ev.id) ∷ r.model_to_event }
    else r

note_result : EventRow → Resolution → Resolution
note_result ev r =
    if struct_ok ev.payload
      && string_ok (get "tool_use_id" ev.payload)
      && string_ok (get "tool_use_event_id" ev.payload)
    then (if not (str_eq (as_string (get "tool_use_event_id" ev.payload)) "")
        then record r { resolved = as_string (get "tool_use_event_id" ev.payload) ∷ r.resolved }
        else (let event = find_text (as_string (get "tool_use_id" ev.payload)) r.model_to_event in
            if str_eq event "" then r else record r { resolved = event ∷ r.resolved }))
    else r

unfoldable pub note_event : EventRow → Resolution → Resolution
unfolding note_use note_result
note_event ev r =
    if is_server_tool_use ev.type
    then note_use ev r
    else if is_server_tool_result ev.type
    then note_result ev r
    else r

unfoldable pub collect_resolved : List EventRow → Resolution → Resolution
collect_resolved [] r = r
collect_resolved (ev ∷ events) r = collect_resolved events (note_event ev r)

abbrev pub nothing_resolved : Resolution
nothing_resolved = record { model_to_event = []; resolved = [] }

unfoldable pub collect_resolved_tool_use_events : List EventRow → List String
collect_resolved_tool_use_events events = (collect_resolved events nothing_resolved).resolved

-- filterThreadEvents of messages.go
unfoldable pub filter_thread_events : List EventRow → String → List EventRow
filter_thread_events events thread =
    let t = if str_eq thread "" then "primary" else thread in
    select (λ ev. str_eq ev.thread_id "" || str_eq ev.thread_id t) events

unfoldable pub tool_result_event_type : EventType → EventType
tool_result_event_type agent_mcp_tool_use = agent_mcp_tool_result
tool_result_event_type _ = agent_tool_result

unfoldable pub tool_result_payload : EventType → String → String → String → Bool → Value
tool_result_payload type model_id event_id content is_err = object (
    ("type", str (type_text type))
    ∷ ("tool_use_id", str model_id)
    ∷ ("tool_use_event_id", str event_id)
    ∷ ("content", str content)
    ∷ ("is_error", bool is_err)
    ∷ [])

-- The names in tool.Registry.
abbrev pub Registry : Type 0
Registry = List ToolDef

abbrev tool_answer : Env → Result (String × Bool) → String × Bool
tool_answer env (ok r) = r
tool_answer env (err e) = (env.error_text e, true)

module _ (env : Env) (ctx : Ctx) (builtin : Registry) (mcp : Option McpSession) where
  execute_builtin : String → Raw → M (String × Bool)
  execute_builtin name input =
      if some_of (λ d. str_eq d.name name) builtin
      then (do
        note_call name input
        res ← ask (λ n. env.tool_execute n name input)
        pure (tool_answer env res))
      else pure ("unknown tool: " <> name, true)

  unfoldable pub execute_server_tool : String → Raw → M (String × Bool)
  unfolding execute_builtin
  execute_server_tool name input = elim mcp [
    | none ↦ execute_builtin name input
    | some ms ↦
        if is_mcp_tool (some ms) name
        then call_mcp env ms name input
        else execute_builtin name input
  ]

  module _ (session thread : String) where
    unfoldable pub publish_tool_result : EventType → String → String → String × Bool → M (Unit {0})
    publish_tool_result type model_id event_id (content, is_err) = ignore (
        publish env ctx session type thread
          (some (tool_result_payload type model_id event_id content is_err)))

    denial : ToolConfirmation → String
    denial c = if str_eq c.deny_message "" then "tool use denied by user" else c.deny_message

    -- A confirmed call: refused, run, or (another word than deny and allow) left waiting.
    unfoldable pub resolve_confirmed : PendingConfirmation → ToolConfirmation → M (Unit {0})
    unfolding denial
    resolve_confirmed p c =
        if str_eq c.result "deny"
        then publish_tool_result (tool_result_event_type p.event_type) p.model_tool_use_id
            p.event_id (denial c, true)
        else if not (str_eq c.result "allow")
        then pure tt
        else do
          answer ← execute_server_tool p.name p.input
          publish_tool_result (tool_result_event_type p.event_type) p.model_tool_use_id p.event_id
              answer

    unfoldable pub resolve_each :
        List (String × ToolConfirmation) → List String → List PendingConfirmation → M (Unit {0})
    resolve_each confirmations resolved [] = pure tt
    resolve_each confirmations resolved (p ∷ ps) = do
      if some_of (λ id. str_eq id p.event_id) resolved
          then pure tt
          else elim (find_confirmation p.event_id confirmations) [
            | none ↦ pure tt
            | some c ↦ resolve_confirmed p c
          ]
      resolve_each confirmations resolved ps

    unfoldable pub resolve_pending_tool_confirmations : M (Unit {0})
    resolve_pending_tool_confirmations = do
      all ← list_events env ctx session []
      let events = filter_thread_events all thread
      resolve_each (collect_tool_confirmations events []) (collect_resolved_tool_use_events events)
          (collect_pending_confirmations events)
