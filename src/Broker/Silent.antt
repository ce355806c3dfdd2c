-- ===== src/Broker/Silent.antt =====
-- The calls of the store and the broker, for properties of the requests and of the tools run.
use jadeenvoy.Broker.{dispatch, publish, run_hooks}
use jadeenvoy.Errors.{Result, err, ok}
use jadeenvoy.Json.{Raw}
use jadeenvoy.Prelude.{List, Option, String, none, some, ℕ}
use jadeenvoy.Provider.{ChatRequest}
use jadeenvoy.Rows.{Db, Event, EventRow, EventType, SessionRow, Status}
use jadeenvoy.Store.Event.{
  AppendEventInput, append_event, append_tx, commit_tx, committed, list_events,
}
use jadeenvoy.Store.Session.{
  get_session, mark_session_terminated, or_not_found, update_row, update_session_status,
  update_session_usage,
}
use jadeenvoy.World.{Ctx, Env, World, ask, db_call, modify}
use jadeenvoy.World.Keeps.{
  Keeps, Keeps-ask, Keeps-attempt, Keeps-bind, Keeps-db_call, Keeps-fail, Keeps-gets, Keeps-if,
  Keeps-ignore, Keeps-lift, Keeps-modify, Keeps-pure,
}

-- An invariant of the calls that leave the program.
abbrev pub OfCalls : (List ChatRequest → List (String × Raw) → Type 0) → World → Type 0
OfCalls R w = R w.requests w.executed

pub ruleset call_rules = (
  Keeps-pure, Keeps-fail, Keeps-lift, Keeps-gets, Keeps-ignore, Keeps-attempt, Keeps-if, Keeps-bind,
)

module _ (R : List ChatRequest → List (String × Raw) → Type 0) where
  pub db_call-OfCalls : (env : Env) (ctx : Ctx) → Keeps (OfCalls R) (db_call env ctx)
  db_call-OfCalls env ctx = Keeps-db_call env ctx (λ w h. h)

  pub ask-OfCalls : {A : Type 0} (f : ℕ → A) → Keeps (OfCalls R) (ask f)
  ask-OfCalls f = Keeps-ask f (λ w h. h)

  commit_tx-OfCalls :
      (id : String) (now : ℕ) (input : AppendEventInput)
      → Keeps (OfCalls R) (commit_tx id now input)
  unfolding commit_tx
  commit_tx-OfCalls id now input = record { at = λ w h. kept w h (append_tx id now input w.db) }
    where
      kept : (w : World) → OfCalls R w → (r : Result (EventRow × Db)) → OfCalls R (committed r w).1
      kept w h (err e) = h
      kept w h (ok r) = h

  update_row-OfCalls :
      (id : String) (f : SessionRow → SessionRow) → Keeps (OfCalls R) (update_row id f)
  unfolding update_row
  update_row-OfCalls id f = record { at = λ w h. h }

  or_not_found-OfCalls : {A : Type 0} (o : Option A) → Keeps (OfCalls R) (or_not_found o)
  unfolding or_not_found
  or_not_found-OfCalls none = search call_rules
  or_not_found-OfCalls (some a) = search call_rules

  dispatch-OfCalls : (ev : Event) → Keeps (OfCalls R) (modify (dispatch ev))
  unfolding dispatch
  dispatch-OfCalls ev = Keeps-modify _ (λ w h. h)

  hooks-OfCalls : (ev : Event) → Keeps (OfCalls R) (modify (run_hooks ev))
  hooks-OfCalls ev = Keeps-modify _ (λ w h. h)

  module _ (env : Env) (ctx : Ctx) where
    pub append_event-OfCalls :
        (input : AppendEventInput) → Keeps (OfCalls R) (append_event env ctx input)
    unfolding append_event
    append_event-OfCalls input = search (call_rules, db_call-OfCalls, commit_tx-OfCalls)

    pub list_events-OfCalls :
        (id : String) (types : List String) → Keeps (OfCalls R) (list_events env ctx id types)
    unfolding list_events
    list_events-OfCalls id types = search (call_rules, db_call-OfCalls)

    pub get_session-OfCalls : (id : String) → Keeps (OfCalls R) (get_session env ctx id)
    unfolding get_session
    get_session-OfCalls id = search (call_rules, db_call-OfCalls, or_not_found-OfCalls)

    pub update_session_status-OfCalls :
        (id : String) (s : Status) → Keeps (OfCalls R) (update_session_status env ctx id s)
    unfolding update_session_status
    update_session_status-OfCalls id s = search (call_rules, db_call-OfCalls, update_row-OfCalls)

    pub mark_session_terminated-OfCalls :
        (id : String) → Keeps (OfCalls R) (mark_session_terminated env ctx id)
    unfolding mark_session_terminated
    mark_session_terminated-OfCalls id = search (call_rules, db_call-OfCalls, update_row-OfCalls)

    pub update_session_usage-OfCalls :
        (id : String) (a b c d : ℕ) → Keeps (OfCalls R) (update_session_usage env ctx id a b c d)
    unfolding update_session_usage
    update_session_usage-OfCalls id a b c d =
        search (call_rules, db_call-OfCalls, update_row-OfCalls)

    pub publish-OfCalls :
        (session : String) (type : EventType) (thread : String) (payload : Raw)
        → Keeps (OfCalls R) (publish env ctx session type thread payload)
    unfolding publish
    publish-OfCalls session type thread payload =
        search (call_rules, append_event-OfCalls, dispatch-OfCalls, hooks-OfCalls)
