-- ===== src/Harness/Thread.antt =====
-- RunThread of internal/harness/harness.go: the start of a turn, its loop and its deferred function.
pub mod Requests
pub mod Ends
use jadeenvoy.Broker.{publish}
use jadeenvoy.Errors.{Error, Result, err, is_canceled, ok, wrap}
use jadeenvoy.Harness.Agent.{agent_config, idle_payload}
use jadeenvoy.Harness.CustomTools.{parse_custom_tool_defs}
use jadeenvoy.Harness.Mcp.{Resolver, connect_mcp}
use jadeenvoy.Harness.Permissions.{new_permission_decider}
use jadeenvoy.Harness.Settings.{Settings}
use jadeenvoy.Harness.Turn.{run_loop}
use jadeenvoy.Json.{Value, as_list, as_strings, object, str}
use jadeenvoy.Prelude.{String, [], if◌then◌else◌, none, some, str_eq, ◌<>◌, ◌∷◌}
use jadeenvoy.Rows.{SessionRow, idle, session_status_idle, session_status_terminated, type_text}
use jadeenvoy.Store.Session.{get_session, mark_session_terminated, update_session_status}
use jadeenvoy.World.{Env, M, ask, attempt, background, fail, ignore, pure, turn, ◌>>=◌, ◌>>◌}

resolver_of : Settings → SessionRow → Resolver
resolver_of h s = elim h.resolve_token [
  | none ↦ none
  | some f ↦ some (f s.tenant_id (as_strings (as_list (some s.vault_ids))))
]

module _ (env : Env) (h : Settings) (session thread : String) where
  -- The turn without its deferred functions.
  unfoldable pub run_body : M (Unit {0})
  unfolding resolver_of
  run_body = do
    got ← attempt (get_session env turn session)
    s ← elim got [ ok r ↦ pure r | err e ↦ fail (wrap "get session" e) ]
    let agent = agent_config s.agent_snapshot
    sandbox ← ask env.provision
    elim sandbox [ ok u ↦ pure tt | err e ↦ fail (wrap "provision sandbox" e) ]
    mcp ← connect_mcp env s.agent_snapshot (resolver_of h s)
    skills ← ask env.skill_prompt
    resources ← ask env.resource_prompt
    run_loop env h (record {
      session = session;
      thread = thread;
      agent = record agent { system = agent.system <> (skills <> resources) };
      custom = parse_custom_tool_defs agent.tools;
      permissions = new_permission_decider agent.tools;
      mcp = mcp;
    })

  terminated_payload : Error → Value
  terminated_payload e = object (
      ("type", str (type_text session_status_terminated))
      ∷ ("error", object (("type", str "agent_error") ∷ ("message", str (env.error_text e)) ∷ []))
      ∷ [])

  -- The deferred function: an interrupt ends the turn as idle, another error as terminated.
  unfoldable pub close_turn : Result (Unit {0}) → M (Unit {0})
  unfolding terminated_payload
  close_turn (ok u) = pure tt
  close_turn (err e) =
      if is_canceled e
      then (do
        ignore (update_session_status env background session idle)
        ignore (
            publish env background session session_status_idle thread
              (some (idle_payload "interrupt"))))
      else (do
        ignore (mark_session_terminated env background session)
        ignore (
            publish env background session session_status_terminated thread
              (some (terminated_payload e)))
        fail e)

-- RunThread; the turn's lock makes it one action.
unfoldable pub run_thread : Env → Settings → String → String → M (Unit {0})
run_thread env h session thread =
    let name = if str_eq thread "" then "primary" else thread in
    attempt (run_body env h session name) >>= close_turn env h session name
