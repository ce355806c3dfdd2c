-- ===== src/Store/Log/Calls.antt =====
-- Any sequence of calls of the store.
use jadeenvoy.Prelude.{ℕ, String, List, [], ◌∷◌}
use jadeenvoy.Json.{Raw}
use jadeenvoy.Rows.{Status}
use jadeenvoy.World.{Env, World, Ctx, M, ignore}
use jadeenvoy.World.Keeps.{Keeps, Keeps-ignore}
use jadeenvoy.Store.Session.{
  CreateSessionInput, get_session, create_session, update_session_status, mark_session_terminated,
  update_session_usage, update_session_fields, archive_session, delete_session,
}
use jadeenvoy.Store.Event.{AppendEventInput, append_event, list_events}
use jadeenvoy.Store.Log.{IsLog}
use jadeenvoy.Store.Log.Keeps.{
  HasLog, append_event-HasLog, get_session-HasLog, list_events-HasLog, update_session_status-HasLog,
  mark_session_terminated-HasLog, update_session_usage-HasLog, create_session-HasLog,
  update_session_fields-HasLog, archive_session-HasLog, delete_session-HasLog,
}

-- A call of the store, with its arguments.
pub data Call : Type 0 where
  create : CreateSessionInput → Call
  read : String → Call
  set_status : String → Status → Call
  terminate : String → Call
  add_usage : String → ℕ → ℕ → ℕ → ℕ → Call
  set_fields : String → String → Raw → List String → Call
  archive : String → Call
  delete : String → Call
  append : AppendEventInput → Call
  list : String → List String → Call

unfoldable pub perform : Env → Ctx → Call → M (Unit {0})
perform env ctx (create input) = ignore (create_session env ctx input)
perform env ctx (read id) = ignore (get_session env ctx id)
perform env ctx (set_status id s) = ignore (update_session_status env ctx id s)
perform env ctx (terminate id) = ignore (mark_session_terminated env ctx id)
perform env ctx (add_usage id a b c d) = ignore (update_session_usage env ctx id a b c d)
perform env ctx (set_fields id title m vs) = ignore (update_session_fields env ctx id title m vs)
perform env ctx (archive id) = ignore (archive_session env ctx id)
perform env ctx (delete id) = ignore (delete_session env ctx id)
perform env ctx (append input) = ignore (append_event env ctx input)
perform env ctx (list id types) = ignore (list_events env ctx id types)

perform-HasLog : (env : Env) (ctx : Ctx) (c : Call) → Keeps HasLog (perform env ctx c)
unfolding perform
perform-HasLog env ctx (create input) = Keeps-ignore _ (create_session-HasLog env ctx input)
perform-HasLog env ctx (read id) = Keeps-ignore _ (get_session-HasLog env ctx id)
perform-HasLog env ctx (set_status id s) =
    Keeps-ignore _ (update_session_status-HasLog env ctx id s)
perform-HasLog env ctx (terminate id) = Keeps-ignore _ (mark_session_terminated-HasLog env ctx id)
perform-HasLog env ctx (add_usage id a b c d) =
    Keeps-ignore _ (update_session_usage-HasLog env ctx id a b c d)
perform-HasLog env ctx (set_fields id title m vs) =
    Keeps-ignore _ (update_session_fields-HasLog env ctx id title m vs)
perform-HasLog env ctx (archive id) = Keeps-ignore _ (archive_session-HasLog env ctx id)
perform-HasLog env ctx (delete id) = Keeps-ignore _ (delete_session-HasLog env ctx id)
perform-HasLog env ctx (append input) = Keeps-ignore _ (append_event-HasLog env ctx input)
perform-HasLog env ctx (list id types) = Keeps-ignore _ (list_events-HasLog env ctx id types)

-- The calls one after another; an error ends only its own call.
unfoldable pub perform_all : Env → List (Ctx × Call) → World → World
perform_all env [] w = w
perform_all env ((ctx, c) ∷ cs) w = perform_all env cs (perform env ctx c w).1

-- From a world whose log is numbered, any sequence of store calls, whichever of them fail because
-- of the database, a cancelled context or their own checks, leaves a log in which the events of
-- every session carry 1, 2, 3, … in the order of insertion and next_seq is the number after the last.
pub perform_all-IsLog :
    (env : Env) (cs : List (Ctx × Call)) (w : World) → IsLog w.db → IsLog (perform_all env cs w).db
unfolding perform_all
perform_all-IsLog env [] w h = h
perform_all-IsLog env ((ctx, c) ∷ cs) w h =
    perform_all-IsLog env cs (perform env ctx c w).1 ((perform-HasLog env ctx c).at w h)
