-- ===== src/Harness/Approvals/Once.antt =====
-- The confirmed calls of internal/harness/approvals.go whose results are in the log.
use jadeenvoy.Errors.{ok}
use jadeenvoy.Harness.Approvals.{
  PendingConfirmation, Registry, Resolution, ToolConfirmation, collect_resolved,
  collect_resolved_tool_use_events, is_server_tool_result, is_server_tool_use, note_event,
  nothing_resolved, resolve_each, tool_result_event_type, tool_result_payload, note_use,
  note_result,
}
use jadeenvoy.Harness.Mcp.{McpSession}
use jadeenvoy.Prelude.{
  Bool, List, Option, String, [], arith, false, refl, some_of, str_eq, true, ◌++◌, ◌∷◌, ◌≡◌,
  str_eq_refl,
}
use jadeenvoy.Rows.{EventRow, EventType}
use jadeenvoy.World.{Ctx, Env, World, ◌>>=◌}

abbrev is_in : String → List String → Bool
is_in id ids = some_of (λ k. str_eq k id) ids

-- Resolutions are only added.
note-monotone :
    (id : String) (ev : EventRow) (r : Resolution)
    → is_in id r.resolved ≡ true
    → is_in id (note_event ev r).resolved ≡ true
unfolding note_event note_use note_result
note-monotone id ev r h = ground (arith, h)

collect-monotone :
    (id : String) (events : List EventRow) (r : Resolution)
    → is_in id r.resolved ≡ true
    → is_in id (collect_resolved events r).resolved ≡ true
unfolding collect_resolved
collect-monotone id [] r h = h
collect-monotone id (ev ∷ events) r h =
    collect-monotone id events (note_event ev r) (note-monotone id ev r h)

collect-append :
    (xs ys : List EventRow) (r : Resolution)
    → collect_resolved (xs ++ ys) r ≡ collect_resolved ys (collect_resolved xs r)
unfolding collect_resolved
collect-append [] ys r = refl
collect-append (x ∷ xs) ys r = collect-append xs ys (note_event x r)

-- The event that publishToolResult writes for a call.
pub record IsResultOf (p : PendingConfirmation) (row : EventRow) : Type 0 where
  pub content : String
  pub failed : Bool
  pub type_is : row.type ≡ tool_result_event_type p.event_type
  pub payload_is :
      row.payload
      ≡ tool_result_payload
          (tool_result_event_type p.event_type)
          p.model_tool_use_id
          p.event_id
          content
          failed

result_type-server : (t : EventType) → is_server_tool_result (tool_result_event_type t) ≡ true
unfolding tool_result_event_type
result_type-server t = ground arith

result_type-use : (t : EventType) → is_server_tool_use (tool_result_event_type t) ≡ false
unfolding tool_result_event_type
result_type-use t = ground arith

note-result :
    (p : PendingConfirmation) (row : EventRow) (r : Resolution)
    → str_eq p.event_id "" ≡ false
    → IsResultOf p row
    → is_in p.event_id (note_event row r).resolved ≡ true
unfolding note_event note_result tool_result_payload
note-result p row r named i =
    rw
      (
        i.type_is,
        i.payload_is,
        result_type-use p.event_type,
        result_type-server p.event_type,
        named,
      )
      (rw (str_eq_refl p.event_id) refl)

module _ (env : Env) (ctx : Ctx) (builtin : Registry) (mcp : Option McpSession) where
  -- When the thread's log holds the result of a confirmed call, at whatever place, resolving the
  -- confirmations does nothing for that call: it is neither run nor answered again.
  pub resolve_each-once :
      (session thread : String) (p : PendingConfirmation)
      (confirmations : List (String × ToolConfirmation)) (before later : List EventRow)
      (row : EventRow) (w : World)
      → str_eq p.event_id "" ≡ false
      → IsResultOf p row
      → resolve_each env ctx builtin mcp session thread confirmations
          (collect_resolved_tool_use_events (before ++ row ∷ later))
          (p ∷ [])
          w
        ≡ (ok tt, w)
  unfolding resolve_each collect_resolved_tool_use_events ◌>>=◌
  resolve_each-once session thread p confirmations before later row w named i =
      let there : is_in p.event_id
            (collect_resolved (before ++ row ∷ later) nothing_resolved).resolved
          ≡ true =
        rw (collect-append before (row ∷ later) nothing_resolved) (
          unfold collect_resolved in
          collect-monotone p.event_id later _
            (note-result p row (collect_resolved before nothing_resolved) named i)) in
      rw there refl
