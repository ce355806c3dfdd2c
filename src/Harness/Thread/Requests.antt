-- ===== src/Harness/Thread/Requests.antt =====
-- The number of model requests of a whole turn.
use jadeenvoy.Broker.Silent.{
  OfCalls, ask-OfCalls, call_rules, get_session-OfCalls, mark_session_terminated-OfCalls,
  publish-OfCalls, update_session_status-OfCalls,
}
use jadeenvoy.Errors.{Result, err, is_canceled, ok, wrap}
use jadeenvoy.Harness.Mcp.{
  McpServerDecl, McpSession, Resolver, connect_mcp, connect_server, connect_servers, decode_servers,
}
use jadeenvoy.Harness.Requests.{MakesAtMost, makes-attempt, makes-bind, makes-more, makes-none}
use jadeenvoy.Harness.Settings.{Settings}
use jadeenvoy.Harness.Thread.{close_turn, run_body, run_thread}
use jadeenvoy.Harness.Turn.Limit.{checked-OfCalls, run_loop-bound}
use jadeenvoy.Json.{Raw, Value}
use jadeenvoy.Prelude.{
  List, String, [], arith, if◌then◌else◌, length, none, not, str_eq, ◌*◌, ◌+◌, ◌||◌, ◌∷◌, ◌≤◌,
}
use jadeenvoy.Provider.{ChatRequest}
use jadeenvoy.Rows.{SessionRow}
use jadeenvoy.World.{Env, M, World, attempt, fail, pure, turn, ◌>>=◌}
use jadeenvoy.World.Keeps.{
  Keeps, Keeps-answer, Keeps-attempt, Keeps-bind, Keeps-fail, Keeps-if, Keeps-option, Keeps-pure,
}

connect_server-OfCalls :
    (R : List ChatRequest → List (String × Raw) → Type 0) (env : Env) (resolve : Resolver)
    (d : McpServerDecl) (ms : McpSession)
    → Keeps (OfCalls R) (connect_server env resolve d ms)
unfolding connect_server
connect_server-OfCalls R env resolve d ms =
    Keeps-if (not (str_eq d.type "url") || str_eq d.name "" || str_eq d.url "") _ _ (Keeps-pure ms)
      (Keeps-bind _ _ (ask-OfCalls R _)
        (λ res. Keeps-answer res _ _ (λ ts. Keeps-pure _) (λ e. Keeps-pure ms)))

connect_servers-OfCalls :
    (R : List ChatRequest → List (String × Raw) → Type 0) (env : Env) (resolve : Resolver)
    (ds : List McpServerDecl) (ms : McpSession)
    → Keeps (OfCalls R) (connect_servers env resolve ds ms)
unfolding connect_servers
connect_servers-OfCalls R env resolve [] ms = Keeps-pure ms
connect_servers-OfCalls R env resolve (d ∷ ds) ms =
    Keeps-bind _ _ (connect_server-OfCalls R env resolve d ms)
      (connect_servers-OfCalls R env resolve ds)

connect_mcp-OfCalls :
    (R : List ChatRequest → List (String × Raw) → Type 0) (env : Env) (snapshot : Value)
    (resolve : Resolver)
    → Keeps (OfCalls R) (connect_mcp env snapshot resolve)
unfolding connect_mcp
connect_mcp-OfCalls R env snapshot resolve =
    Keeps-option (decode_servers snapshot) _ _ (Keeps-pure none)
      (λ ds. Keeps-bind _ _ (connect_servers-OfCalls R env resolve ds _) (λ ms. Keeps-pure _))

module _ (env : Env) (h : Settings) (session thread : String) where
  got-OfCalls :
      (R : List ChatRequest → List (String × Raw) → Type 0) (res : Result SessionRow)
      → Keeps
          (OfCalls R)
          (elim res as (λ x. M SessionRow) [ ok r ↦ pure r | err e ↦ fail (wrap "get session" e) ])
  got-OfCalls R (ok r) = Keeps-pure r
  got-OfCalls R (err e) = Keeps-fail _

  run_body-bound :
      MakesAtMost (h.max_steps * (h.max_retries + 1) + 1) (run_body env h session thread)
  unfolding run_body
  run_body-bound = makes-more _ (omega arith) (
      makes-bind _ _ (makes-none _ (λ R. Keeps-attempt _ (get_session-OfCalls R env turn session)))
        (λ got. makes-bind _ _ (makes-none _ (λ R. got-OfCalls R got)) (λ s.
          makes-bind _ _ (makes-none _ (λ R. ask-OfCalls R _)) (λ sandbox.
            makes-bind _ _ (makes-none _ (λ R. checked-OfCalls R "provision sandbox" sandbox)) (λ a.
              makes-bind _ _ (makes-none _ (λ R. connect_mcp-OfCalls R env _ _)) (λ mcp.
                makes-bind _ _ (makes-none _ (λ R. ask-OfCalls R _)) (λ skills.
                  makes-bind _ _ (makes-none _ (λ R. ask-OfCalls R _))
                    (λ resources. run_loop-bound env h _))))))))

  close_turn-OfCalls :
      (R : List ChatRequest → List (String × Raw) → Type 0) (r : Result (Unit {0}))
      → Keeps (OfCalls R) (close_turn env h session thread r)
  unfolding close_turn
  close_turn-OfCalls R (ok u) = Keeps-pure tt
  close_turn-OfCalls R (err e) =
      Keeps-if (is_canceled e) _ _
        (search (call_rules, update_session_status-OfCalls, publish-OfCalls))
        (search (call_rules, mark_session_terminated-OfCalls, publish-OfCalls))

-- A turn makes at most MaxSteps · (MaxRetries + 1) + 1 model requests, whatever the model answers,
-- the tools return and the database refuses: the loop is bounded.
pub run_thread-bound :
    (env : Env) (h : Settings) (session thread : String) (w : World)
    → length (run_thread env h session thread w).1.requests
      ≤ h.max_steps * (h.max_retries + 1) + 1 + length w.requests
unfolding run_thread
run_thread-bound env h session thread w =
    (whole (if str_eq thread "" then "primary" else thread)).at w
  where
    whole :
        (name : String)
        → MakesAtMost
            (h.max_steps * (h.max_retries + 1) + 1)
            (attempt (run_body env h session name) >>= close_turn env h session name)
    whole name = makes-more _ (omega arith) (
        makes-bind _ _ (makes-attempt _ (run_body-bound env h session name))
          (λ r. makes-none _ (λ R. close_turn-OfCalls env h session name R r)))
