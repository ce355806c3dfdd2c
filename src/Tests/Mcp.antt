-- ===== src/Tests/Mcp.antt =====
-- One MCP server with one tool.
use jadeenvoy.Errors.{ok}
use jadeenvoy.Harness.Mcp.{
  McpSession, add_tools, connect_mcp, connect_server, connect_servers, decode_servers,
}
use jadeenvoy.Harness.Mcp.Routes.{IsRouted, connect_mcp-IsRouted}
use jadeenvoy.Harness.Permissions.{mcp_tool_name}
use jadeenvoy.Json.{Value, array, object, str}
use jadeenvoy.Prelude.{[], none, refl, ◌∷◌}
use jadeenvoy.Tests.Fixtures.{blank, quiet}
use jadeenvoy.World.{Env, ◌>>=◌}

abbrev with_git : Env
with_git = record quiet {
  mcp_list =
      λ n url auth. ok (record { name = "push"; description = ""; input_schema = none } ∷ []);
}

abbrev git_snapshot : Value
git_snapshot = object (
    (
      "mcp_servers",
      array (
          object (("type", str "url") ∷ ("name", str "git") ∷ ("url", str "http://git") ∷ []) ∷ []),
    )
    ∷ [])

abbrev git_session : McpSession
git_session = record {
  clients = "git" ∷ [];
  defs = record { name = "mcp__git__push"; description = ""; input_schema = none } ∷ [];
  route = ("mcp__git__push", record { server = "git"; tool_name = "push" }) ∷ [];
}

connect_mcp-IsRouted_example : IsRouted git_session
unfolding connect_mcp decode_servers connect_servers connect_server add_tools mcp_tool_name ◌>>=◌
connect_mcp-IsRouted_example =
    connect_mcp-IsRouted with_git none git_snapshot blank git_session refl
