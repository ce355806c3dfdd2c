-- ===== src/Rows.antt =====
-- The rows of the two tables behind a session: internal/store/session.go, internal/store/event.go
-- and the schema in internal/store/store.go. Times are milliseconds.
use jadeenvoy.Prelude.{
  none, some, ℕ, String, Option, List, str_eq, first, select, map, if◌then◌else◌,
}
use jadeenvoy.Json.{Value}

-- The CHECK of session.status.
pub data Status : Type 0 where
  idle running rescheduling terminated requires_action : Status

-- The event types that the code names; `other` is any other text.
pub data EventType : Type 0 where
  user_message user_custom_tool_result user_tool_confirmation user_interrupt : EventType
  agent_message agent_tool_use agent_custom_tool_use agent_mcp_tool_use : EventType
  agent_tool_result agent_mcp_tool_result agent_guardrail_violation : EventType
  agent_thread_context_compacted : EventType
  span_model_request_start span_model_request_end : EventType
  session_status_running session_status_idle session_status_rescheduled : EventType
  session_status_terminated session_status_requires_action : EventType
  other : String → EventType

-- The text of a type, as in the column and in the payload.
abbrev pub type_text : EventType → String
type_text user_message = "user.message"
type_text user_custom_tool_result = "user.custom_tool_result"
type_text user_tool_confirmation = "user.tool_confirmation"
type_text user_interrupt = "user.interrupt"
type_text agent_message = "agent.message"
type_text agent_tool_use = "agent.tool_use"
type_text agent_custom_tool_use = "agent.custom_tool_use"
type_text agent_mcp_tool_use = "agent.mcp_tool_use"
type_text agent_tool_result = "agent.tool_result"
type_text agent_mcp_tool_result = "agent.mcp_tool_result"
type_text agent_guardrail_violation = "agent.guardrail_violation"
type_text agent_thread_context_compacted = "agent.thread_context_compacted"
type_text span_model_request_start = "span.model_request_start"
type_text span_model_request_end = "span.model_request_end"
type_text session_status_running = "session.status_running"
type_text session_status_idle = "session.status_idle"
type_text session_status_rescheduled = "session.status_rescheduled"
type_text session_status_terminated = "session.status_terminated"
type_text session_status_requires_action = "session.status_requires_action"
type_text (other s) = s

pub record SessionRow : Type 0 where
  pub id : String
  pub tenant_id : String
  pub agent_id : String
  pub agent_version : ℕ
  pub agent_snapshot : Value
  pub environment_id : String
  pub status : Status
  pub title : Option String
  pub metadata : Value
  pub vault_ids : Value
  pub created_at : ℕ
  pub updated_at : ℕ
  pub archived_at : Option ℕ
  pub terminated_at : Option ℕ
  pub next_seq : ℕ
  pub usage_input : ℕ
  pub usage_output : ℕ
  pub usage_cache_create : ℕ
  pub usage_cache_read : ℕ

pub record EventRow : Type 0 where
  pub id : String
  pub session_id : String
  pub thread_id : String
  pub seq : ℕ
  pub type : EventType
  pub payload : Value
  pub processed_at : Option ℕ
  pub created_at : ℕ

-- The two tables, rows in the order of their insertion.
pub record Db : Type 0 where
  pub sessions : List SessionRow
  pub events : List EventRow

-- SELECT … FROM session WHERE id = ?
abbrev pub find_session : String → List SessionRow → Option SessionRow
find_session id = first (λ r. str_eq r.id id)

-- UPDATE session SET … WHERE id = ?
abbrev pub update_session : String → (SessionRow → SessionRow) → List SessionRow → List SessionRow
update_session id f = map (λ r. if str_eq r.id id then f r else r)

-- The events of one session, in the order of the table.
abbrev pub events_of : String → List EventRow → List EventRow
events_of id = select (λ e. str_eq e.session_id id)

-- event.Event, the form in which the broker hands an event on.
pub record Event : Type 0 where
  pub id : String
  pub session_id : String
  pub thread_id : String
  pub type : EventType
  pub seq : ℕ
  pub payload : Value
  pub processed_at : ℕ

abbrev pub event_of : EventRow → Event
event_of row = record {
  id = row.id;
  session_id = row.session_id;
  thread_id = row.thread_id;
  type = row.type;
  seq = row.seq;
  payload = row.payload;
  processed_at = elim row.processed_at [ none ↦ 0 | some ms ↦ ms ];
}
