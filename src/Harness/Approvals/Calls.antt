-- ===== src/Harness/Approvals/Calls.antt =====
-- What the running of tools adds to the calls that leave the program.
use jadeenvoy.Broker.Silent.{OfCalls, ask-OfCalls, call_rules, list_events-OfCalls, publish-OfCalls}
use jadeenvoy.Harness.Approvals.{
  PendingConfirmation, Registry, ToolConfirmation, execute_server_tool, publish_tool_result,
  resolve_confirmed, resolve_each, resolve_pending_tool_confirmations, execute_builtin,
  find_confirmation,
}
use jadeenvoy.Harness.Mcp.{McpSession, call_mcp, note_call, find_route, is_mcp_tool}
use jadeenvoy.Json.{Raw}
use jadeenvoy.Prelude.{
  Bool, List, Option, String, [], ◌++◌, ◌∷◌, Option-cases, inl, inr, some, some_of, str_eq,
}
use jadeenvoy.Provider.{ChatRequest}
use jadeenvoy.Rows.{EventType}
use jadeenvoy.World.{Ctx, Env}
use jadeenvoy.World.Keeps.{Keeps, Keeps-bind, Keeps-if, Keeps-modify, Keeps-option, Keeps-pure}

-- A call of the tool `name` keeps `R`.
abbrev pub Runs : (List ChatRequest → List (String × Raw) → Type 0) → String → Type 0
Runs R name =
    (rs : List ChatRequest) (xs : List (String × Raw)) (input : Raw)
    → R rs xs
    → R rs (xs ++ (name, input) ∷ [])

module _ (R : List ChatRequest → List (String × Raw) → Type 0) where
  note_call-OfCalls :
      (name : String) (input : Raw) → Runs R name → Keeps (OfCalls R) (note_call name input)
  note_call-OfCalls name input runs = Keeps-modify _ (λ w h. runs w.requests w.executed input h)

  call_mcp-OfCalls :
      (env : Env) (ms : McpSession) (name : String) (input : Raw)
      → Runs R name
      → Keeps (OfCalls R) (call_mcp env ms name input)
  unfolding call_mcp
  call_mcp-OfCalls env ms name input runs = elim (Option-cases (find_route name ms.route)) [
    | inl unknown ↦ rw (unknown, call_mcp) (search call_rules)
    | inr (r, found) ↦
        rw (found, call_mcp) (search (call_rules, ask-OfCalls, note_call-OfCalls, runs))
  ]

  module _ (env : Env) (ctx : Ctx) (builtin : Registry) (mcp : Option McpSession) where
    execute_builtin-OfCalls :
        (name : String) (input : Raw)
        → Runs R name
        → Keeps (OfCalls R) (execute_builtin env ctx builtin mcp name input)
    unfolding execute_builtin
    execute_builtin-OfCalls name input runs =
        search (call_rules, ask-OfCalls, note_call-OfCalls, runs)

    pub execute_server_tool-OfCalls :
        (name : String) (input : Raw)
        → Runs R name
        → Keeps (OfCalls R) (execute_server_tool env ctx builtin mcp name input)
    unfolding execute_server_tool
    execute_server_tool-OfCalls name input runs =
        Keeps-option mcp _ _ (execute_builtin-OfCalls name input runs) (λ ms.
          Keeps-if (is_mcp_tool (some ms) name) _ _ (call_mcp-OfCalls env ms name input runs)
            (execute_builtin-OfCalls name input runs))

    module _ (session thread : String) where
      pub publish_tool_result-OfCalls :
          (type : EventType) (model_id event_id : String) (answer : String × Bool)
          → Keeps
              (OfCalls R)
              (publish_tool_result env ctx builtin mcp session thread type model_id event_id answer)
      unfolding publish_tool_result
      publish_tool_result-OfCalls type model_id event_id (content, is_err) =
          search (call_rules, publish-OfCalls)

      resolve_confirmed-OfCalls :
          (p : PendingConfirmation) (c : ToolConfirmation)
          → Runs R p.name
          → Keeps (OfCalls R) (resolve_confirmed env ctx builtin mcp session thread p c)
      unfolding resolve_confirmed
      resolve_confirmed-OfCalls p c runs =
          search (call_rules, publish_tool_result-OfCalls, execute_server_tool-OfCalls, runs)

      resolve_each-OfCalls :
          ((name : String) → Runs R name)
          → (cs : List (String × ToolConfirmation)) (resolved : List String)
          → (ps : List PendingConfirmation)
          → Keeps (OfCalls R) (resolve_each env ctx builtin mcp session thread cs resolved ps)
      unfolding resolve_each
      resolve_each-OfCalls runs cs resolved [] = search call_rules
      resolve_each-OfCalls runs cs resolved (p ∷ ps) =
          Keeps-bind _ _
            (Keeps-if (some_of (λ id. str_eq id p.event_id) resolved) _ _ (Keeps-pure tt) (
              Keeps-option (find_confirmation p.event_id cs) _ _ (Keeps-pure tt)
                (λ c. resolve_confirmed-OfCalls p c (runs p.name))))
            (λ u. resolve_each-OfCalls runs cs resolved ps)

      pub resolve_pending-OfCalls :
          ((name : String) → Runs R name)
          → Keeps
              (OfCalls R)
              (resolve_pending_tool_confirmations env ctx builtin mcp session thread)
      unfolding resolve_pending_tool_confirmations
      resolve_pending-OfCalls runs =
          Keeps-bind _ _ (list_events-OfCalls R env ctx session [])
            (λ all. resolve_each-OfCalls runs _ _ _)
