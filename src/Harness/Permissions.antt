-- ===== src/Harness/Permissions.antt =====
-- internal/harness/permissions.go, and the tool names of internal/harness/mcp.go
pub mod Decide
use jadeenvoy.Prelude.{
  String, ◌<>◌, Bool, true, false, Option, none, some, List, [], ◌∷◌, map, ◌&&◌, str_eq,
  if◌then◌else◌, strip_prefix, cut,
}
use jadeenvoy.Json.{
  Value, Raw, null, arr, obj, get, as_string, string_ok, struct_ok, elements, as_list, null_or,
  list_ok,
}

pub data Policy : Type 0 where
  always_allow always_ask : Policy

-- normalizePermission; `none` is the empty text.
unfoldable pub normalize_permission : String → Option Policy
normalize_permission p =
    if str_eq p "always_allow"
    then some always_allow
    else if str_eq p "always_ask"
    then some always_ask
    else none

-- A Go map from names to policies: the newest write first.
abbrev pub PolicyMap : Type 0
PolicyMap = List (String × Policy)

unfoldable pub find_policy : String → PolicyMap → Option Policy
find_policy k [] = none
find_policy k ((j, p) ∷ m) = if str_eq j k then some p else find_policy k m

pub record PermissionDecider : Type 0 where
  pub agent_default : Policy
  pub agent_tools : PolicyMap
  pub mcp_defaults : PolicyMap
  pub mcp_tools : PolicyMap

pub record ToolConfig : Type 0 where
  pub name : String
  pub policy : String

-- permissionToolsetEntry, with default_config.permission_policy.type as `default_policy`
pub record ToolsetEntry : Type 0 where
  pub type : String
  pub mcp_server_name : String
  pub default_policy : String
  pub configs : List ToolConfig

-- Decoding of {permission_policy: {type}}
abbrev policy_text : Value → String
policy_text v = as_string (get "type" (null_or (get "permission_policy" v)))

abbrev policy_ok : Value → Bool
policy_ok v =
    let p = null_or (get "permission_policy" v) in
    struct_ok v && struct_ok p && string_ok (get "type" p)

config_of : Value → ToolConfig
config_of v = record { name = as_string (get "name" v); policy = policy_text v }

config_ok : Value → Bool
config_ok v = policy_ok v && string_ok (get "name" v)

entry_of : Value → ToolsetEntry
unfolding config_of
entry_of v = record {
  type = as_string (get "type" v);
  mcp_server_name = as_string (get "mcp_server_name" v);
  default_policy = policy_text (null_or (get "default_config" v));
  configs = map config_of (as_list (get "configs" v));
}

entry_ok : Value → Bool
unfolding config_ok
entry_ok v =
    struct_ok v
    && string_ok (get "type" v)
    && string_ok (get "mcp_server_name" v)
    && policy_ok (null_or (get "default_config" v))
    && list_ok config_ok (get "configs" v)

-- json.Unmarshal of the tools into entries; `none` is an error.
unfoldable pub decode_entries : Raw → Option (List ToolsetEntry)
unfolding entry_of entry_ok
decode_entries raw = elim raw [
  | none ↦ none
  | some v ↦ if list_ok entry_ok (some v) then some (map entry_of (as_list (some v))) else none
]

-- server + "\x00" + tool
unfoldable pub mcp_permission_key : String → String → String
mcp_permission_key server tool = server <> ("\0" <> tool)

abbrev put_policy : String → Option Policy → PolicyMap → PolicyMap
put_policy k none m = m
put_policy k (some p) m = (k, p) ∷ m

-- The loops over e.Configs.
agent_configs : List ToolConfig → PolicyMap → PolicyMap
agent_configs [] m = m
agent_configs (c ∷ cs) m =
    agent_configs cs
      (if str_eq c.name "" then m else put_policy c.name (normalize_permission c.policy) m)

mcp_configs : String → List ToolConfig → PolicyMap → PolicyMap
mcp_configs server [] m = m
mcp_configs server (c ∷ cs) m = mcp_configs server cs (
    if str_eq c.name ""
    then m
    else put_policy (mcp_permission_key server c.name) (normalize_permission c.policy) m)

abbrev pub or_policy : Option Policy → Policy → Policy
or_policy none d = d
or_policy (some p) d = p

-- One round of the loop over the entries.
add_entry : ToolsetEntry → PermissionDecider → PermissionDecider
unfolding agent_configs mcp_configs
add_entry e d =
    if str_eq e.type "agent_toolset_20260401"
    then record d {
      agent_default = or_policy (normalize_permission e.default_policy) d.agent_default;
      agent_tools = agent_configs e.configs d.agent_tools;
    }
    else if str_eq e.type "mcp_toolset"
    then record d {
      mcp_defaults =
          if str_eq e.mcp_server_name ""
          then d.mcp_defaults
          else (e.mcp_server_name, or_policy (normalize_permission e.default_policy) always_ask)
            ∷ d.mcp_defaults;
      mcp_tools = mcp_configs e.mcp_server_name e.configs d.mcp_tools;
    }
    else d

unfoldable pub add_entries : List ToolsetEntry → PermissionDecider → PermissionDecider
unfolding add_entry
add_entries [] d = d
add_entries (e ∷ es) d = add_entries es (add_entry e d)

abbrev pub no_toolsets : PermissionDecider
no_toolsets = record {
  agent_default = always_allow;
  agent_tools = [];
  mcp_defaults = [];
  mcp_tools = [];
}

unfoldable pub new_permission_decider : Raw → PermissionDecider
new_permission_decider tools = elim (decode_entries tools) [
  | none ↦ no_toolsets
  | some entries ↦ add_entries entries no_toolsets
]

-- mcp__<server>__<tool>, the name that connectMCP gives a server's tool
unfoldable pub mcp_tool_name : String → String → String
mcp_tool_name server tool = "mcp__" <> (server <> ("__" <> tool))

abbrev pub split_parts : String → Option (String × String) → String × String
split_parts name none = ("", name)
split_parts name (some p) = p

abbrev pub split_rest : String → Option String → String × String
split_rest name none = ("", name)
split_rest name (some rest) = split_parts name (cut "__" rest)

unfoldable pub split_mcp_tool_name : String → String × String
split_mcp_tool_name name = split_rest name (strip_prefix "mcp__" name)

abbrev pub asks : Policy → Bool
asks always_ask = true
asks always_allow = false

unfoldable pub requires_approval : PermissionDecider → String → Bool → Bool → Bool
requires_approval d tool is_mcp is_custom =
    if is_custom
    then false
    else if is_mcp
    then (let (server, short) = split_mcp_tool_name tool in
        asks (
          or_policy (find_policy (mcp_permission_key server tool) d.mcp_tools) (
            or_policy (find_policy (mcp_permission_key server short) d.mcp_tools)
              (or_policy (find_policy server d.mcp_defaults) always_ask))))
    else asks (or_policy (find_policy tool d.agent_tools) d.agent_default)
