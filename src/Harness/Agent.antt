-- ===== src/Harness/Agent.antt =====
-- What RunThread of internal/harness/harness.go reads of the agent, and the payloads of its events.
use jadeenvoy.Harness.CustomTools.{is_custom_tool}
use jadeenvoy.Harness.Guardrails.{AgentGuardrails, guardrails_of}
use jadeenvoy.Harness.Mcp.{McpSession, is_mcp_tool}
use jadeenvoy.Harness.Model.{PendingToolUse, parse_model_id}
use jadeenvoy.Harness.Permissions.{PermissionDecider, asks, requires_approval}
use jadeenvoy.Json.{Raw, Value, array, as_string, bool, end, get, obj, object, str}
use jadeenvoy.Prelude.{
  Bool, List, Option, String, [], false, if◌then◌else◌, none, some, str_eq, true, ◌∷◌,
}
use jadeenvoy.Provider.{ToolDef}
use jadeenvoy.Rows.{
  EventType, agent_custom_tool_use, agent_guardrail_violation, agent_mcp_tool_use, agent_tool_use,
  session_status_idle, session_status_requires_action, type_text,
}
use jadeenvoy.World.{Env}

-- What the turn reads of the agent's snapshot.
pub record AgentConfig : Type 0 where
  pub model : String
  pub system : String
  pub tools : Raw
  pub guardrails : Option AgentGuardrails

unfoldable pub agent_config : Value → AgentConfig
agent_config snapshot = record {
  model = parse_model_id (get "model" snapshot);
  system = as_string (get "system" snapshot);
  tools = get "tools" snapshot;
  guardrails = guardrails_of (get "guardrails" snapshot);
}

-- The turn after its start: the agent, the client's tools, the permissions and the MCP servers.
pub record Turn : Type 0 where
  pub session : String
  pub thread : String
  pub agent : AgentConfig
  pub custom : List ToolDef
  pub permissions : PermissionDecider
  pub mcp : Option McpSession

-- How the loop over the tool uses or over the steps ends: `paused` is the return without an error
-- before the end, `finished` the natural end with its reason.
pub data Outcome : Type 0 where
  goes_on paused : Outcome
  finished : String → Outcome

unfoldable pub idle_payload : String → Value
idle_payload reason = object (
    ("type", str (type_text session_status_idle))
    ∷ ("stop_reason", object (("type", str reason) ∷ []))
    ∷ [])

unfoldable pub requires_action_idle_payload : String → Value
requires_action_idle_payload event_id = object (
    ("type", str (type_text session_status_idle))
    ∷ (
      "stop_reason",
      object (
          ("type", str "requires_action")
          ∷ ("event_ids", array (str event_id ∷ []))
          ∷ ("requires_action", object (("event_ids", array (str event_id ∷ [])) ∷ []))
          ∷ []),
    )
    ∷ [])

unfoldable pub tool_use_type : Turn → String → EventType
tool_use_type t name =
    if is_mcp_tool t.mcp name
    then agent_mcp_tool_use
    else if is_custom_tool t.custom name
    then agent_custom_tool_use
    else agent_tool_use

unfoldable pub needs_approval : Turn → String → Bool
needs_approval t name =
    requires_approval t.permissions name (is_mcp_tool t.mcp name) (is_custom_tool t.custom name)

-- The bytes of InputJSON: no document where they are none.
abbrev pub document : Env → String → Raw
document env s = if str_eq s "" then none else env.parse_json s

-- json.Marshal with an embedded document; it fails where that is none.
abbrev pub with_input : Raw → (Value → Value) → Raw
with_input none f = none
with_input (some v) f = some (f v)

unfoldable pub input_of : Env → PendingToolUse → Raw
input_of env pt = if str_eq pt.input_json "" then some (obj end) else env.parse_json pt.input_json

abbrev confirmation_field : Bool → List (String × Value)
confirmation_field true = ("requires_confirmation", bool true) ∷ []
confirmation_field false = []

unfoldable pub tool_use_payload : EventType → PendingToolUse → Bool → Value → Value
tool_use_payload type pt asks input = object (
    ("type", str (type_text type))
    ∷ ("id", str pt.id)
    ∷ ("name", str pt.name)
    ∷ ("input", input)
    ∷ confirmation_field asks)

unfoldable pub violation_payload : PendingToolUse → String → Value
violation_payload pt reason = object (
    ("type", str (type_text agent_guardrail_violation))
    ∷ ("tool_use_id", str pt.id)
    ∷ ("name", str pt.name)
    ∷ ("reason", str reason)
    ∷ [])

unfoldable pub required_action_payload : String → PendingToolUse → Value → Value
required_action_payload session pt input = object (
    ("type", str (type_text session_status_requires_action))
    ∷ ("agent_session_id", str session)
    ∷ (
      "required_actions",
      array (
          object (
            ("type", str "custom_tool_use")
            ∷ (
              "custom_tool_use",
              object (("id", str pt.id) ∷ ("name", str pt.name) ∷ ("input", input) ∷ []),
            )
            ∷ [])
          ∷ []),
    )
    ∷ [])
