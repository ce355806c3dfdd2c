-- ===== src/Tests/Policies.antt =====
-- Guardrails and permissions at concrete inputs.
use jadeenvoy.Prelude.{◌≡◌, refl, ◌↔◌, true, false, Option, none, some, [], ◌∷◌}
use jadeenvoy.Json.{Raw, obj, arr, str, field, end, cons, nil}
use jadeenvoy.Harness.Guardrails.{
  AgentGuardrails, tool_allowed_by_guardrails, Permits, tool_allowed-Permits,
}
use jadeenvoy.Harness.Permissions.{
  new_permission_decider, requires_approval, find_policy, or_policy, asks, always_allow,
  decode_entries, add_entries, normalize_permission,
}
use jadeenvoy.Harness.Permissions.Decide.{named_policy, default_policy, builtin_approval}

abbrev strict : Option AgentGuardrails
strict = some (record {
  tool_permissions =
      some (record { allowed_tools = "read" ∷ "bash" ∷ []; denied_tools = "bash" ∷ [] });
})

tool_allowed-Permits_example :
    ((tool_allowed_by_guardrails strict "bash").0 ≡ true) ↔ Permits strict "bash"
tool_allowed-Permits_example = tool_allowed-Permits strict "bash"

denied_first : (tool_allowed_by_guardrails strict "bash").0 ≡ false
unfolding tool_allowed_by_guardrails
denied_first = refl

-- [{"type": "agent_toolset_20260401", "configs": [{"name": "bash", "permission_policy": {"type": "always_ask"}}]}]
abbrev toolset : Raw
toolset = some (
    arr (
      cons
        (obj (
          field "type" (str "agent_toolset_20260401") (
            field "configs"
              (arr (
                cons
                  (obj (
                    field "name" (str "bash")
                      (field "permission_policy" (obj (field "type" (str "always_ask") end)) end)))
                  nil))
              end)))
        nil))

builtin_approval_example :
    requires_approval (new_permission_decider toolset) "bash" false false
    ≡ elim (decode_entries toolset) [
      | none ↦ false
      | some es ↦ asks (or_policy (named_policy "bash" es) (default_policy always_allow es))
    ]
builtin_approval_example = builtin_approval toolset "bash"

bash_asks : requires_approval (new_permission_decider toolset) "bash" false false ≡ true
unfolding requires_approval new_permission_decider decode_entries add_entries normalize_permission
    find_policy
bash_asks = refl
