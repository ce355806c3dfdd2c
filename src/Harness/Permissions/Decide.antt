-- ===== src/Harness/Permissions/Decide.antt =====
-- Which calls wait for the user's approval, in the words of the agent's tool list.
use native.Mathlib.Omega.{arith}
use jadeenvoy.Prelude.{
  String, ◌<>◌, ◌≡◌, refl, Bool, false, Option, none, some, List, [], ◌∷◌, str_eq, if◌then◌else◌,
  cut, cut-join, inl, inr, Bool-cases, ◌∙◌, ap, sym, Option-cases, strip-append,
}
use jadeenvoy.Json.{Raw}
use jadeenvoy.Harness.Permissions.{
  Policy, always_allow, PolicyMap, find_policy, PermissionDecider, ToolConfig, ToolsetEntry,
  normalize_permission, decode_entries, add_entry, add_entries, agent_configs, no_toolsets,
  new_permission_decider, or_policy, put_policy, asks, mcp_tool_name, split_mcp_tool_name,
  requires_approval, split_rest, split_parts,
}

-- The routing name of an MCP tool splits into the server and the tool it was made of, if "__" does
-- not occur in the server's name nor arises at its end.
pub split-mcp_tool_name :
    (server tool : String)
    → cut "__" (server <> "_") ≡ none
    → split_mcp_tool_name (mcp_tool_name server tool) ≡ (server, tool)
unfolding split_mcp_tool_name mcp_tool_name
split-mcp_tool_name server tool h =
    ap (split_rest (mcp_tool_name server tool)) (strip-append "mcp__" (server <> ("__" <> tool)))
    ∙ ap (split_parts (mcp_tool_name server tool)) (cut-join server tool h)

-- The last valid policy that the agent toolsets give a tool by name.
pub last_config : String → List ToolConfig → Option Policy
last_config tool [] = none
last_config tool (c ∷ cs) = elim (last_config tool cs) [
  | some p ↦ some p
  | none ↦
      if str_eq c.name ""
      then none
      else if str_eq c.name tool
      then normalize_permission c.policy
      else none
]

pub is_agent_toolset : ToolsetEntry → Bool
is_agent_toolset e = str_eq e.type "agent_toolset_20260401"

pub named_policy : String → List ToolsetEntry → Option Policy
named_policy tool [] = none
named_policy tool (e ∷ es) = elim (named_policy tool es) [
  | some p ↦ some p
  | none ↦ if is_agent_toolset e then last_config tool e.configs else none
]

-- The last valid default of the agent toolsets, or else `p`.
pub default_policy : Policy → List ToolsetEntry → Policy
default_policy p [] = p
default_policy p (e ∷ es) =
    default_policy
      (if is_agent_toolset e then or_policy (normalize_permission e.default_policy) p else p) es

abbrev over : Option Policy → Option Policy → Option Policy
over (some p) o = some p
over none o = o

find-agent_configs :
    (tool : String) (cs : List ToolConfig) (m : PolicyMap)
    → find_policy tool (agent_configs cs m) ≡ over (last_config tool cs) (find_policy tool m)
unfolding agent_configs last_config find_policy
find-agent_configs tool [] m = refl
find-agent_configs tool (c ∷ cs) m = ground (
  arith,
  find-agent_configs tool cs m,
  find-agent_configs tool cs (put_policy c.name (normalize_permission c.policy) m),
)

find-add_entry :
    (tool : String) (e : ToolsetEntry) (d : PermissionDecider)
    → find_policy tool (add_entry e d).agent_tools
      ≡ over
          (if is_agent_toolset e then last_config tool e.configs else none)
          (find_policy tool d.agent_tools)
unfolding add_entry is_agent_toolset
find-add_entry tool e d = elim (Bool-cases (str_eq e.type "agent_toolset_20260401")) [
  | inl agent ↦ rw agent (find-agent_configs tool e.configs d.agent_tools)
  | inr another ↦ ground arith
]

over_assoc :
    (a b c : Option Policy) → over (elim a [ some p ↦ some p | none ↦ b ]) c ≡ over a (over b c)
over_assoc none b c = refl
over_assoc (some p) b c = refl

find-add_entries :
    (tool : String) (es : List ToolsetEntry) (d : PermissionDecider)
    → find_policy tool (add_entries es d).agent_tools
      ≡ over (named_policy tool es) (find_policy tool d.agent_tools)
unfolding add_entries named_policy
find-add_entries tool [] d = refl
find-add_entries tool (e ∷ es) d =
    find-add_entries tool es (add_entry e d)
    ∙ ap (over (named_policy tool es)) (find-add_entry tool e d)
    ∙ sym (over_assoc (named_policy tool es) _ (find_policy tool d.agent_tools))

default-add_entry :
    (e : ToolsetEntry) (d : PermissionDecider)
    → (add_entry e d).agent_default ≡ (
        if is_agent_toolset e
        then or_policy (normalize_permission e.default_policy) d.agent_default
        else d.agent_default)
unfolding add_entry is_agent_toolset
default-add_entry e d = ground arith

default-add_entries :
    (es : List ToolsetEntry) (d : PermissionDecider)
    → (add_entries es d).agent_default ≡ default_policy d.agent_default es
unfolding add_entries default_policy
default-add_entries [] d = refl
default-add_entries (e ∷ es) d =
    default-add_entries es (add_entry e d)
    ∙ ap (λ (p : Policy). default_policy p es) (default-add_entry e d)

-- A built-in tool waits for approval exactly when the last valid policy that an agent toolset gives
-- it by name is "always_ask"; with none by name, the last valid default decides; with none at all, or
-- a tool list that does not decode, it never waits.
pub builtin_approval :
    (tools : Raw) (tool : String)
    → requires_approval (new_permission_decider tools) tool false false
      ≡ elim (decode_entries tools) [
        | none ↦ false
        | some es ↦ asks (or_policy (named_policy tool es) (default_policy always_allow es))
      ]
unfolding requires_approval new_permission_decider find_policy
builtin_approval tools tool = elim (Option-cases (decode_entries tools)) [
  | inl refused ↦ ground arith
  | inr (es, decoded) ↦
      ground (arith, find-add_entries tool es no_toolsets, default-add_entries es no_toolsets)
]
