-- ===== src/Harness/Messages.antt =====
-- internal/harness/messages.go and the checkpoints of internal/harness/compaction.go: what the
-- model gets to read of the event log.
pub mod Said
pub mod Roles
use jadeenvoy.Harness.Approvals.{filter_thread_events, find_text}
use jadeenvoy.Harness.Guardrails.{is_empty}
use jadeenvoy.Prelude.{
  Bool, List, Option, String, [], false, if◌then◌else◌, leb_ℤ, map, negsuc, none, not, pos, some,
  str_eq, true, ℤ, ◌&&◌, ◌++◌, ◌<>◌, ◌||◌, ◌∷◌,
}
use jadeenvoy.Provider.{ContentBlock, Message, Role, assistant, user}
use jadeenvoy.Rows.{
  EventRow, EventType, agent_custom_tool_use, agent_mcp_tool_result, agent_mcp_tool_use,
  agent_message, agent_tool_result, agent_tool_use, user_custom_tool_result, user_message,
  agent_thread_context_compacted,
}
use jadeenvoy.Store.Event.{list_events}
use jadeenvoy.World.{Ctx, Env, M, pure, ◌>>=◌}
use jadeenvoy.Json.{
  Value, as_bool, as_int64, as_list, as_string, get, int64_ok, string_ok, struct_ok,
}

-- The last checkpoint, as both files look for it: -1 where there is none.
pub record Checkpoint : Type 0 where
  pub max_seq : ℤ
  pub through_seq : ℤ
  pub summary : String

abbrev pub no_checkpoint : Checkpoint
no_checkpoint = record { max_seq = negsuc 0; through_seq = negsuc 0; summary = "" }

abbrev pub is_compaction : EventType → Bool
is_compaction agent_thread_context_compacted = true
is_compaction _ = false

checkpoint_ok : Value → Bool
checkpoint_ok p =
    struct_ok p
    && string_ok (get "type" p)
    && string_ok (get "summary" p)
    && int64_ok (get "through_seq" p)

note_checkpoint : EventRow → Checkpoint → Checkpoint
unfolding checkpoint_ok
note_checkpoint ev c =
    if not (is_compaction ev.type) || leb_ℤ (pos ev.seq) c.max_seq
    then c
    else if checkpoint_ok ev.payload
    then record {
      max_seq = pos ev.seq;
      through_seq = as_int64 (get "through_seq" ev.payload);
      summary = as_string (get "summary" ev.payload);
    }
    else c

unfoldable pub find_checkpoint : List EventRow → Checkpoint → Checkpoint
unfolding note_checkpoint
find_checkpoint [] c = c
find_checkpoint (ev ∷ events) c = find_checkpoint events (note_checkpoint ev c)

-- toolUseEventToModelID, the newest write first
abbrev is_tool_use : EventType → Bool
is_tool_use agent_tool_use = true
is_tool_use agent_custom_tool_use = true
is_tool_use agent_mcp_tool_use = true
is_tool_use _ = false

note_model_id : EventRow → List (String × String) → List (String × String)
note_model_id ev m =
    if is_tool_use ev.type
      && struct_ok ev.payload
      && string_ok (get "id" ev.payload)
      && not (str_eq (as_string (get "id" ev.payload)) "")
    then (ev.id, as_string (get "id" ev.payload)) ∷ m
    else m

unfoldable pub model_ids : List EventRow → List (String × String) → List (String × String)
unfolding note_model_id
model_ids [] m = m
model_ids (ev ∷ events) m = model_ids events (note_model_id ev m)

abbrev pub plain_block : ContentBlock
plain_block = record {
  type = "";
  text = "";
  tool_use_id = "";
  tool_name = "";
  tool_input = none;
  tool_result = "";
  is_error = false;
}

abbrev pub text_block : String → ContentBlock
text_block s = record plain_block { type = "text"; text = s }

-- provider.ContentBlock from its document
unfoldable pub block_of : Value → ContentBlock
block_of v = record {
  type = as_string (get "type" v);
  text = as_string (get "text" v);
  tool_use_id = as_string (get "tool_use_id" v);
  tool_name = as_string (get "name" v);
  tool_input = get "input" v;
  tool_result = as_string (get "content" v);
  is_error = as_bool (get "is_error" v);
}

content_of : Value → List ContentBlock
unfolding block_of
content_of p = map block_of (as_list (get "content" p))

typed : ContentBlock → ContentBlock
typed b = if str_eq b.type "" then record b { type = "text" } else b

tool_use_block : Value → ContentBlock
tool_use_block p = record plain_block {
  type = "tool_use";
  tool_use_id = as_string (get "id" p);
  tool_name = as_string (get "name" p);
  tool_input = get "input" p;
}

result_id : List (String × String) → Value → String
result_id ids p =
    let tool = as_string (get "tool_use_id" p) in
    let id = if str_eq tool "" then as_string (get "custom_tool_use_id" p) else tool in
    let model = find_text id ids in if str_eq model "" then id else model

tool_result_block : List (String × String) → Value → ContentBlock
unfolding result_id
tool_result_block ids p = record plain_block {
  type = "tool_result";
  tool_use_id = result_id ids p;
  tool_result = as_string (get "content" p);
  is_error = as_bool (get "is_error" p);
}

-- The role that an event speaks in, and the blocks it adds; `none` adds nothing.
unfoldable pub role_of : EventType → Option Role
role_of user_message = some user
role_of agent_message = some assistant
role_of agent_tool_use = some assistant
role_of agent_custom_tool_use = some assistant
role_of agent_mcp_tool_use = some assistant
role_of agent_tool_result = some user
role_of user_custom_tool_result = some user
role_of agent_mcp_tool_result = some user
role_of _ = none

unfoldable pub blocks_of : List (String × String) → EventRow → List ContentBlock
unfolding content_of typed tool_use_block tool_result_block
blocks_of ids ev = elim ev.type [
  | user_message ↦ map typed (content_of ev.payload)
  | agent_message ↦ content_of ev.payload
  | agent_tool_use ↦ tool_use_block ev.payload ∷ []
  | agent_custom_tool_use ↦ tool_use_block ev.payload ∷ []
  | agent_mcp_tool_use ↦ tool_use_block ev.payload ∷ []
  | agent_tool_result ↦ tool_result_block ids ev.payload ∷ []
  | user_custom_tool_result ↦ tool_result_block ids ev.payload ∷ []
  | agent_mcp_tool_result ↦ tool_result_block ids ev.payload ∷ []
  | _ ↦ []
]

abbrev pub is_user_message : EventType → Bool
is_user_message user_message = true
is_user_message _ = false

-- The state of the loop: the messages finished, the current one, and the summary not yet given.
pub record Building : Type 0 where
  pub msgs : List Message
  pub current : Option Message
  pub pending : Option String

abbrev pub flushed : Option Message → List Message
flushed none = []
flushed (some m) = if is_empty m.content then [] else m ∷ []

abbrev pub same_role : Role → Role → Bool
same_role user user = true
same_role assistant assistant = true
same_role _ _ = false

-- ensure, and then an append of blocks to the current message
unfoldable pub speak : Role → List ContentBlock → Building → Building
speak role bs st = elim st.current [
  | none ↦ record st { current = some (record { role = role; content = bs }) }
  | some m ↦
      if same_role m.role role
      then record st { current = some (record m { content = m.content ++ bs }) }
      else record st {
        msgs = st.msgs ++ flushed (some m);
        current = some (record { role = role; content = bs });
      }
]

abbrev pub summary_blocks : Option String → List ContentBlock
summary_blocks none = []
summary_blocks (some s) = text_block ("[Earlier conversation summary]\n" <> s) ∷ []

-- One event beyond the checkpoint: the first user message has the summary before its own blocks.
unfoldable pub add_event : List (String × String) → EventRow → Building → Building
add_event ids ev st = elim (role_of ev.type) [
  | none ↦ st
  | some r ↦
      if is_user_message ev.type
      then record (speak r (summary_blocks st.pending ++ blocks_of ids ev) st) { pending = none }
      else speak r (blocks_of ids ev) st
]

unfoldable pub add_events : List (String × String) → ℤ → List EventRow → Building → Building
add_events ids cutoff [] st = st
add_events ids cutoff (ev ∷ events) st =
    add_events ids cutoff events (if leb_ℤ (pos ev.seq) cutoff then st else add_event ids ev st)

unfoldable pub finish_messages : Building → List Message
finish_messages st = st.msgs ++ flushed st.current

-- buildMessages on the events of one thread
unfoldable pub messages_of : List EventRow → List Message
messages_of events =
    let c = find_checkpoint events no_checkpoint in
    finish_messages (
      add_events (model_ids events []) c.through_seq events (record {
        msgs = [];
        current = none;
        pending = if str_eq c.summary "" then none else some c.summary;
      }))

unfoldable pub build_messages : Env → Ctx → String → String → M (List Message)
build_messages env ctx session thread = do
  all ← list_events env ctx session []
  pure (messages_of (filter_thread_events all thread))
