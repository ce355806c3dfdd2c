-- ===== src/Harness/Mcp.antt =====
-- internal/harness/mcp.go: the MCP servers of one turn and the routing of their tools.
pub mod Routes
use jadeenvoy.Harness.Guardrails.{is_empty}
use jadeenvoy.Harness.Permissions.{mcp_tool_name}
use jadeenvoy.Prelude.{
  Bool, List, Option, String, [], false, if◌then◌else◌, map, none, not, some, some_of, str_eq, true,
  ◌&&◌, ◌++◌, ◌<>◌, ◌||◌, ◌∷◌,
}
use jadeenvoy.Errors.{Result, err, ok}
use jadeenvoy.Provider.{ToolDef}
use jadeenvoy.Json.{Value, Raw, as_string, get, as_list, list_ok, object, str, string_ok, struct_ok}
use jadeenvoy.World.{Env, M, ◌>>=◌, ◌>>◌, pure, ask, modify}

pub record McpRoute : Type 0 where
  pub server : String
  pub tool_name : String

-- mcpSession; the maps with the newest write first. `clients` are the servers connected.
pub record McpSession : Type 0 where
  pub clients : List String
  pub defs : List ToolDef
  pub route : List (String × McpRoute)

pub record McpServerDecl : Type 0 where
  pub type : String
  pub name : String
  pub url : String

decl_of : Value → McpServerDecl
decl_of v = record {
  type = as_string (get "type" v);
  name = as_string (get "name" v);
  url = as_string (get "url" v);
}

decl_ok : Value → Bool
decl_ok v =
    struct_ok v && string_ok (get "type" v) && string_ok (get "name" v) && string_ok (get "url" v)

-- The declarations of the snapshot; `none` is the early `return nil`.
unfoldable pub decode_servers : Value → Option (List McpServerDecl)
unfolding decl_of decl_ok
decode_servers snapshot = elim (get "mcp_servers" snapshot) [
  | none ↦ none
  | some v ↦ if list_ok decl_ok (some v) then some (map decl_of (as_list (some v))) else none
]

-- A tool of a server, under its routing name.
add_tool : String → ToolDef → McpSession → McpSession
add_tool server t ms = record ms {
  defs = ms.defs ++ record t { name = mcp_tool_name server t.name } ∷ [];
  route = (mcp_tool_name server t.name, record { server = server; tool_name = t.name }) ∷ ms.route;
}

unfoldable pub add_tools : String → List ToolDef → McpSession → McpSession
unfolding add_tool
add_tools server [] ms = ms
add_tools server (t ∷ ts) ms = add_tools server ts (add_tool server t ms)

abbrev pub no_servers : McpSession
no_servers = record { clients = []; defs = []; route = [] }

-- Authorization by the server's host; without a resolver or a token there is none.
abbrev pub Resolver : Type 0
Resolver = Option (String → String)

authorization : Env → Resolver → String → String
authorization env none url = ""
authorization env (some resolve) url =
    if str_eq (env.host_of url) ""
    then ""
    else if str_eq (resolve (env.host_of url)) ""
    then ""
    else "Bearer " <> resolve (env.host_of url)

module _ (env : Env) where
  -- One round of connectMCP's loop; a server that fails is left out.
  unfoldable pub connect_server : Resolver → McpServerDecl → McpSession → M McpSession
  unfolding authorization
  connect_server resolve d ms =
      if not (str_eq d.type "url") || str_eq d.name "" || str_eq d.url "" then pure ms else do
        tools ← ask (λ n. env.mcp_list n d.url (authorization env resolve d.url))
        elim tools [
          | err e ↦ pure ms
          | ok ts ↦ pure (add_tools d.name ts (record ms { clients = d.name ∷ ms.clients }))
        ]

  unfoldable pub connect_servers : Resolver → List McpServerDecl → McpSession → M McpSession
  connect_servers resolve [] ms = pure ms
  connect_servers resolve (d ∷ ds) ms = do
    ms' ← connect_server resolve d ms
    connect_servers resolve ds ms'

  -- A session without tools is nil.
  unfoldable pub connect_mcp : Value → Resolver → M (Option McpSession)
  connect_mcp snapshot resolve = elim (decode_servers snapshot) [
    | none ↦ pure none
    | some ds ↦ do
      ms ← connect_servers resolve ds no_servers
      pure (if is_empty ms.defs then none else some ms)
  ]

unfoldable pub find_route : String → List (String × McpRoute) → Option McpRoute
find_route name [] = none
find_route name ((k, r) ∷ rs) = if str_eq k name then some r else find_route name rs

unfoldable pub is_mcp_tool : Option McpSession → String → Bool
is_mcp_tool none name = false
is_mcp_tool (some ms) name = elim (find_route name ms.route) [ none ↦ false | some _ ↦ true ]

-- The schema of a tool without one is {"type":"object"}.
abbrev with_schema : ToolDef → ToolDef
with_schema d = record d {
  input_schema = elim d.input_schema [
    | none ↦ some (object (("type", str "object") ∷ []))
    | some v ↦ some v
  ];
}

unfoldable pub provider_tool_defs : Option McpSession → List ToolDef
provider_tool_defs none = []
provider_tool_defs (some ms) = map with_schema ms.defs

answer : Env → Result (String × Bool) → String × Bool
answer env (ok r) = r
answer env (err e) = ("mcp call failed: " <> env.error_text e, true)

-- Records the call that leaves the program.
abbrev pub note_call : String → Raw → M (Unit {0})
note_call name input = modify (λ w. record w { executed = w.executed ++ (name, input) ∷ [] })

-- The nil session has no routes, but the source only calls the tools of a session that routes them.
unfoldable pub call_mcp : Env → McpSession → String → Raw → M (String × Bool)
unfolding answer
call_mcp env ms name input = elim (find_route name ms.route) [
  | none ↦ pure ("unknown mcp tool: " <> name, true)
  | some r ↦
      if some_of (λ c. str_eq c r.server) ms.clients
      then (do
        note_call name input
        res ← ask (λ n. env.mcp_call n r.server r.tool_name input)
        pure (answer env res))
      else pure ("mcp server not connected: " <> r.server, true)
]
