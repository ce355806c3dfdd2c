-- ===== src/Harness/Guardrails.antt =====
-- internal/harness/guardrails.go
use jadeenvoy.Json.{null, Value, as_strings, get, as_list}
use jadeenvoy.Prelude.{
  go_quoted, String, ◌≡◌, refl, ◌<>◌, Bool, true, false, Option, none, some, List, [], ◌∷◌, some_of,
  str_eq, str_eq_iff, ◌⊎◌, if◌then◌else◌, ◌↔◌, inl, inr, Bool-cases,
}

pub record ToolPermissions : Type 0 where
  pub allowed_tools : List String
  pub denied_tools : List String

pub record AgentGuardrails : Type 0 where
  pub tool_permissions : Option ToolPermissions

-- Decoding of the agent snapshot's field, whose error the harness ignores; `none` is a nil pointer.
permissions_of : Value → ToolPermissions
permissions_of v = record {
  allowed_tools = as_strings (as_list (get "allowed_tools" v));
  denied_tools = as_strings (as_list (get "denied_tools" v));
}

pointer : {A : Type 0} → (Value → A) → Option Value → Option A
pointer f (some null) = none
pointer f none = none
pointer f (some v) = some (f v)

unfoldable pub guardrails_of : Option Value → Option AgentGuardrails
unfolding pointer permissions_of
guardrails_of =
    pointer (λ v. record { tool_permissions = pointer permissions_of (get "tool_permissions" v) })

abbrev pub is_empty {ℓ} : {A : Type ℓ} → List A → Bool
is_empty [] = true
is_empty (x ∷ xs) = false

-- The two loops over the policy's lists.
by_allowed_tools : List String → String → Bool × String
by_allowed_tools [] tool = (true, "")
by_allowed_tools (a ∷ allowed) tool =
    if some_of (λ x. str_eq x tool) (a ∷ allowed)
    then (true, "")
    else (false, "tool " <> (go_quoted tool <> " is not in agent guardrails allowed_tools"))

by_policy : ToolPermissions → String → Bool × String
by_policy policy tool =
    if some_of (λ d. str_eq d tool) policy.denied_tools
    then (false, "tool " <> (go_quoted tool <> " denied by agent guardrails"))
    else by_allowed_tools policy.allowed_tools tool

by_permissions : Option ToolPermissions → String → Bool × String
by_permissions none tool = (true, "")
by_permissions (some policy) tool = by_policy policy tool

-- toolAllowedByGuardrails; `none` is a nil pointer.
unfoldable pub tool_allowed_by_guardrails : Option AgentGuardrails → String → Bool × String
unfolding by_permissions by_policy by_allowed_tools
tool_allowed_by_guardrails none tool = (true, "")
tool_allowed_by_guardrails (some g) tool = by_permissions g.tool_permissions tool

abbrev pub In : String → List String → Type 0
In x [] = ⊥
In x (y ∷ ys) = (y ≡ x) ⊎ In x ys

-- What an agent's guardrails mean: a denied name is never allowed; an empty list of allowed names
-- allows all others.
abbrev pub PolicyPermits : Option ToolPermissions → String → Type 0
PolicyPermits none tool = Unit
PolicyPermits (some p) tool =
    (¬ In tool p.denied_tools) × ((p.allowed_tools ≡ []) ⊎ In tool p.allowed_tools)

abbrev pub Permits : Option AgentGuardrails → String → Type 0
Permits none tool = Unit
Permits (some g) tool = PolicyPermits g.tool_permissions tool

In-cases :
    (x : String) (ys : List String)
    → ((some_of (λ y. str_eq y x) ys ≡ true) × In x ys)
      ⊎ ((some_of (λ y. str_eq y x) ys ≡ false) × (¬ In x ys))
In-cases x [] = inr (refl, λ h. h)
In-cases x (y ∷ ys) = elim (Bool-cases (str_eq y x)) [
  | inl same ↦ inl (rw same refl, inl ((str_eq_iff y x).0 same))
  | inr differs ↦ elim (In-cases x ys) [
    | inl (found, there) ↦ inl (rw differs found, inr there)
    | inr (missing, absent) ↦ inr (
      rw differs missing,
      λ h. elim h [ inl e ↦ cc (differs, (str_eq_iff y x).1 e) | inr t ↦ absent t ],
    )
  ]
]

allowed_tools-In :
    (allowed : List String) (tool : String)
    → ((by_allowed_tools allowed tool).0 ≡ true) ↔ ((allowed ≡ []) ⊎ In tool allowed)
unfolding by_allowed_tools
allowed_tools-In [] tool = (λ h. inl refl, λ h. refl)
allowed_tools-In (a ∷ allowed) tool = elim (In-cases tool (a ∷ allowed)) [
  | inl (found, there) ↦ (λ h. inr there, λ h. rw found refl)
  | inr (missing, absent) ↦
      (λ h. cc (missing, h), λ h. elim h [ inl e ↦ cc e | inr there ↦ absurd (absent there) ])
]

permissions-PolicyPermits :
    (o : Option ToolPermissions) (tool : String)
    → ((by_permissions o tool).0 ≡ true) ↔ PolicyPermits o tool
unfolding by_permissions by_policy
permissions-PolicyPermits none tool = (λ h. tt, λ h. refl)
permissions-PolicyPermits (some p) tool = elim (In-cases tool p.denied_tools) [
  | inl (found, denied) ↦ (λ h. cc (found, h), λ h. absurd (h.0 denied))
  | inr (missing, free) ↦
      let (to, from) = allowed_tools-In p.allowed_tools tool in
      (λ h. (free, to (rw missing at h)), λ h. rw missing (from h.1))
]

-- The check lets a tool through exactly when the agent's guardrails permit it: its name is not among
-- the denied ones, and is among the allowed ones if any are listed; without guardrails, always.
pub tool_allowed-Permits :
    (g : Option AgentGuardrails) (tool : String)
    → ((tool_allowed_by_guardrails g tool).0 ≡ true) ↔ Permits g tool
unfolding tool_allowed_by_guardrails
tool_allowed-Permits none tool = (λ h. tt, λ h. refl)
tool_allowed-Permits (some g) tool = permissions-PolicyPermits g.tool_permissions tool
