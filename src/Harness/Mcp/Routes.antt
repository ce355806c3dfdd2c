-- ===== src/Harness/Mcp/Routes.antt =====
-- The routes of the MCP tools that internal/harness/mcp.go offers.
use jadeenvoy.Harness.Guardrails.{is_empty}
use jadeenvoy.Errors.{Result, err, ok}
use jadeenvoy.Harness.Mcp.{
  McpRoute, McpServerDecl, McpSession, Resolver, add_tools, connect_mcp, connect_server,
  connect_servers, find_route, add_tool, decode_servers, no_servers,
}
use jadeenvoy.Harness.Permissions.{mcp_tool_name}
use jadeenvoy.Harness.Turn.Returns.{
  Leaves, Leaves-bind, Leaves-if, Leaves-pure, Leaves-step, at_pure,
}
use jadeenvoy.Json.{Value}
use jadeenvoy.Prelude.{
  All, All-append, Bool, List, Option, String, [], arith, false, none, not, refl, some, some_of,
  str_eq, str_eq_refl, true, ◌||◌, ◌∷◌, ◌≡◌, if◌then◌else◌,
}
use jadeenvoy.Provider.{ToolDef}
use jadeenvoy.World.{Env, M, World, pure, ◌>>=◌}

abbrev has_client : List String → String → Bool
has_client clients server = some_of (λ c. str_eq c server) clients

abbrev has_route : String → List (String × McpRoute) → Bool
has_route name rs = elim (find_route name rs) [ none ↦ false | some _ ↦ true ]

-- The tools offered have routes, and the routes have clients.
pub record IsRouted (ms : McpSession) : Type 0 where
  pub routed : All (λ d. has_route d.name ms.route ≡ true) ms.defs
  pub connected : All (λ r. has_client ms.clients r.1.server ≡ true) ms.route

has_route-more :
    (name k : String) (r : McpRoute) (rs : List (String × McpRoute))
    → has_route name rs ≡ true
    → has_route name ((k, r) ∷ rs) ≡ true
unfolding find_route
has_route-more name k r rs h = ground (arith, h)

All-map :
    {A : Type 0} {P Q : A → Type 0} (xs : List A) → ((x : A) → P x → Q x) → All P xs → All Q xs
All-map [] f a = tt
All-map (x ∷ xs) f a = (f x a.0, All-map xs f a.1)

add_tool-IsRouted :
    (server : String) (t : ToolDef) (ms : McpSession)
    → has_client ms.clients server ≡ true
    → IsRouted ms
    → IsRouted (add_tool server t ms)
unfolding add_tool find_route
add_tool-IsRouted server t ms c i = record {
  routed =
      All-append (λ d. has_route d.name (add_tool server t ms).route ≡ true) ms.defs _
        (All-map ms.defs (λ d. has_route-more d.name _ _ ms.route) i.routed)
        (rw (has_route, str_eq_refl (mcp_tool_name server t.name)) refl, tt);
  connected = (c, i.connected);
}

add_tools-IsRouted :
    (server : String) (ts : List ToolDef) (ms : McpSession)
    → has_client ms.clients server ≡ true
    → IsRouted ms
    → IsRouted (add_tools server ts ms)
unfolding add_tools add_tool
add_tools-IsRouted server [] ms c i = i
add_tools-IsRouted server (t ∷ ts) ms c i =
    add_tools-IsRouted server ts (add_tool server t ms) c (add_tool-IsRouted server t ms c i)

connected-IsRouted :
    (server : String) (ms : McpSession)
    → IsRouted ms
    → IsRouted (record ms { clients = server ∷ ms.clients })
connected-IsRouted server ms i = record {
  routed = i.routed;
  connected = All-map ms.route (λ r h. ground (arith, h)) i.connected;
}

module _ (env : Env) (resolve : Resolver) where
  connect_server-IsRouted :
      (d : McpServerDecl) (ms : McpSession)
      → IsRouted ms
      → Leaves (connect_server env resolve d ms) (λ ms' w. IsRouted ms')
  unfolding connect_server
  connect_server-IsRouted d ms i =
      Leaves-if (not (str_eq d.type "url") || str_eq d.name "" || str_eq d.url "") _ _
        (Leaves-pure ms (λ w. i)) (Leaves-bind _ _ answered)
    where
      answered :
          (r : Result (List ToolDef))
          → Leaves
              (elim r as (λ x. M McpSession) [
                | err e ↦ pure ms
                | ok ts ↦ pure (add_tools d.name ts (record ms { clients = d.name ∷ ms.clients }))
              ])
              (λ ms' w. IsRouted ms')
      answered (err e) = Leaves-pure ms (λ w. i)
      answered (ok ts) = Leaves-pure _ (λ w.
          add_tools-IsRouted d.name ts (record ms { clients = d.name ∷ ms.clients })
            (rw (str_eq_refl d.name) refl) (connected-IsRouted d.name ms i))

  connect_servers-IsRouted :
      (ds : List McpServerDecl) (ms : McpSession)
      → IsRouted ms
      → Leaves (connect_servers env resolve ds ms) (λ ms' w. IsRouted ms')
  unfolding connect_servers
  connect_servers-IsRouted [] ms i = Leaves-pure ms (λ w. i)
  connect_servers-IsRouted (d ∷ ds) ms i =
      Leaves-step _ _ (connect_server-IsRouted d ms i)
        (λ ms' w i' b e. (connect_servers-IsRouted ds ms' i').at w b e)

  Routes : Option McpSession → Type 0
  Routes none = Unit
  Routes (some ms) = IsRouted ms

  -- The session that connectMCP returns routes every tool that it offers, and has a client for the
  -- server of every route.
  pub connect_mcp-IsRouted :
      (snapshot : Value) (w : World) (ms : McpSession)
      → (connect_mcp env snapshot resolve w).0 ≡ ok (some ms)
      → IsRouted ms
  unfolding connect_mcp Routes
  connect_mcp-IsRouted snapshot w ms e = (whole (decode_servers snapshot)).at w (some ms) e
    where
      offered : (ms : McpSession) → IsRouted ms → (b : Bool) → Routes (if b then none else some ms)
      offered ms i true = tt
      offered ms i false = i

      whole :
          (o : Option (List McpServerDecl))
          → Leaves
              (elim o as (λ x. M (Option McpSession)) [
                | none ↦ pure none
                | some ds ↦
                    (connect_servers env resolve ds no_servers >>= λ ms.
                    pure (if is_empty ms.defs then none else some ms))
              ])
              (λ r w. Routes r)
      whole none = Leaves-pure none (λ w. tt)
      whole (some ds) =
          Leaves-step _ _
            (connect_servers-IsRouted ds no_servers (record { routed = tt; connected = tt }))
            (λ ms w i b e.
              at_pure (λ r w. Routes r) (if is_empty ms.defs then none else some ms) w
                (offered ms i (is_empty ms.defs)) b e)
