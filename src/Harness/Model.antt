-- ===== src/Harness/Model.antt =====
-- The model calls of internal/harness/harness.go, and internal/harness/model.go.
pub mod Attempts
pub mod Verdict
pub mod Stream
use jadeenvoy.Broker.{publish}
use jadeenvoy.Errors.{Error, Result, api, canceled, err, ok, retryable, wrap}
use jadeenvoy.Harness.Compaction.{stream_model}
use jadeenvoy.Harness.Settings.{Settings}
use jadeenvoy.Prelude.{
  List, String, [], decimal, if◌then◌else◌, none, pos, some, suc, zero, ℕ, ◌++◌, ◌+◌, ◌<>◌, ◌==◌,
  ◌∷◌,
}
use jadeenvoy.Provider.{
  ChatEvent, ChatRequest, Usage, error_event, text_delta, tool_use_delta, tool_use_start,
  stop_reason,
}
use jadeenvoy.Rows.{rescheduling, running, session_status_rescheduled, type_text}
use jadeenvoy.Store.Session.{update_session_status}
use jadeenvoy.World.{Ctx, Env, M, ask, attempt, fail, ignore, lift, pure, ◌>>=◌, ◌>>◌}
use jadeenvoy.Json.{Raw, as_string, get, num, object, str}

-- parseModelID
unfoldable pub parse_model_id : Raw → String
parse_model_id none = ""
parse_model_id (some (str s)) = s
parse_model_id (some v) = as_string (get "id" v)

pub record PendingToolUse : Type 0 where
  pub id : String
  pub name : String
  pub input_json : String

pub record ModelResult : Type 0 where
  pub text : String
  pub tools : List PendingToolUse
  pub usage : Usage
  pub stop_reason : String

-- InputJSON += … of the last tool use
unfoldable pub extend_last : String → List PendingToolUse → List PendingToolUse
extend_last s [] = []
extend_last s (t ∷ []) = record t { input_json = t.input_json <> s } ∷ []
extend_last s (t ∷ u ∷ ts) = t ∷ extend_last s (u ∷ ts)

-- The loop over the stream, with the text and the tool uses so far.
unfoldable pub accumulate : List ChatEvent → String → List PendingToolUse → Result ModelResult
accumulate [] text tools = err (
    api (record {
      status_code = 0;
      type = "api_error";
      message = "stream ended without stop_reason";
    }))
accumulate (text_delta t ∷ es) text tools = accumulate es (text <> t) tools
accumulate (tool_use_start id name ∷ es) text tools =
    accumulate es text (tools ++ record { id = id; name = name; input_json = "" } ∷ [])
accumulate (tool_use_delta id s ∷ es) text tools = accumulate es text (extend_last s tools)
accumulate (stop_reason r u ∷ es) text tools =
    ok (record { text = text; tools = tools; usage = u; stop_reason = r })
accumulate (error_event e ∷ es) text tools = err (api e)

accumulated : Result (List ChatEvent) → Result ModelResult
accumulated (ok es) = accumulate es "" []
accumulated (err e) = err e

unfoldable pub call_model_once : Env → ChatRequest → M ModelResult
unfolding accumulated
call_model_once env req = do res ← stream_model env req; lift (accumulated res)

-- ctx.Err(), and the select of a back-off: the error of a context that is done
unfoldable pub check_ctx : Env → M (Unit {0})
check_ctx env = do done ← ask env.ctx_done; if done then fail canceled else pure tt

module _ (env : Env) (ctx : Ctx) (h : Settings) (session : String) where
  -- What happens between two attempts.
  unfoldable pub reschedule : ℕ → Error → M (Unit {0})
  reschedule n last = do
    ignore (update_session_status env ctx session rescheduling)
    ignore (
        publish env ctx session session_status_rescheduled "primary" (
          some (
            object (
              ("type", str (type_text session_status_rescheduled))
              ∷ ("attempt", num (pos n))
              ∷ ("error", object (("message", str (env.error_text last)) ∷ []))
              ∷ []))))
    if h.retry_backoff == 0 then pure tt else check_ctx env
    ignore (update_session_status env ctx session running)

  gave_up : Error → Error
  gave_up last = wrap ("model call failed after " <> (decimal h.max_retries <> " retries")) last

  -- The loop from attempt `n`, with `left` more after it.
  unfoldable pub call_model_from : ChatRequest → ℕ → ℕ → M ModelResult
  unfolding gave_up
  call_model_from req zero n = do
    res ← attempt (call_model_once env req)
    elim res [ ok r ↦ pure r | err e ↦ if retryable e then fail (gave_up e) else fail e ]
  call_model_from req (suc left) n = do
    res ← attempt (call_model_once env req)
    elim res [
      | ok r ↦ pure r
      | err e ↦
          if retryable e
          then (reschedule (n + 1) e >>= λ _. call_model_from req left (n + 1))
          else fail e
    ]

  unfoldable pub call_model_with_retry : ChatRequest → M ModelResult
  call_model_with_retry req = call_model_from req h.max_retries 0
