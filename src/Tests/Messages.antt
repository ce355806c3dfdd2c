-- ===== src/Tests/Messages.antt =====
-- The messages of a small log.
use jadeenvoy.Harness.Messages.{
  add_event, add_events, block_of, blocks_of, find_checkpoint, finish_messages, messages_of,
  model_ids, no_checkpoint, role_of, speak,
}
use jadeenvoy.Harness.Messages.Roles.{
  Alternates, NonEmpty, has_content, messages_of-Alternates, messages_of-NonEmpty,
}
use jadeenvoy.Harness.Messages.Said.{messages_of-speeches, retained, said_in, speeches}
use jadeenvoy.Json.{Value, array, num, object, str}
use jadeenvoy.Prelude.{
  All, List, String, [], if◌then◌else◌, map, none, pos, refl, some, str_eq, ℕ, ◌∷◌, ◌≡◌,
}
use jadeenvoy.Provider.{Message, assistant}
use jadeenvoy.Rows.{
  EventRow, EventType, agent_message, agent_thread_context_compacted, agent_tool_result,
  agent_tool_use, user_message,
}
use jadeenvoy.Tests.Fixtures.{unary}

abbrev entry : ℕ → EventType → Value → EventRow
entry n type payload = record {
  id = unary n;
  session_id = "x";
  thread_id = "primary";
  seq = n;
  type = type;
  payload = payload;
  processed_at = some 5;
  created_at = 5;
}

abbrev spoken : String → Value
spoken s = object (("content", array (object (("text", str s) ∷ []) ∷ [])) ∷ [])

-- A question, an answer with a tool use and its result; the checkpoint stands for the first event.
abbrev log : List EventRow
log =
    entry 1 user_message (spoken "old")
    ∷ entry 2 agent_thread_context_compacted
        (object (("summary", str "gist") ∷ ("through_seq", num (pos 1)) ∷ []))
    ∷ entry 3 user_message (spoken "ask")
    ∷ entry 4 agent_message (spoken "look")
    ∷ entry 5 agent_tool_use (object (("id", str "call") ∷ ("name", str "read") ∷ []))
    ∷ entry 6 agent_tool_result
        (object (("tool_use_id", str "call") ∷ ("content", str "text") ∷ []))
    ∷ []

messages_of-speeches_example :
    said_in (messages_of log)
    ≡ speeches
        (model_ids log [])
        (if str_eq (find_checkpoint log no_checkpoint).summary ""
          then none
          else some (find_checkpoint log no_checkpoint).summary)
        (retained (find_checkpoint log no_checkpoint).through_seq log)
messages_of-speeches_example = messages_of-speeches log

messages_of-Alternates_example : Alternates (messages_of log)
unfolding find_checkpoint retained has_content
messages_of-Alternates_example =
    messages_of-Alternates log (refl, (refl, (refl, (refl, (refl, tt)))))

messages_of-NonEmpty_example : All NonEmpty (messages_of log)
messages_of-NonEmpty_example = messages_of-NonEmpty log

abbrev texts : List Message → List (List String)
texts ms = map (λ m. map (λ b. b.text) m.content) ms

three_messages :
    texts (messages_of log)
    ≡ ("[Earlier conversation summary]\ngist" ∷ "ask" ∷ []) ∷ ("look" ∷ "" ∷ []) ∷ ("" ∷ []) ∷ []
unfolding messages_of find_checkpoint model_ids add_events add_event role_of blocks_of block_of
    speak finish_messages
three_messages = refl

-- A user message without content: the answers around it become two messages of one role.
abbrev silent : List EventRow
silent =
    entry 1 agent_message (spoken "a")
    ∷ entry 2 user_message (object [])
    ∷ entry 3 agent_message (spoken "b")
    ∷ []

two_answers : map (λ m. m.role) (messages_of silent) ≡ assistant ∷ assistant ∷ []
unfolding messages_of find_checkpoint model_ids add_events add_event role_of blocks_of block_of
    speak finish_messages
two_answers = refl

-- Of three turns the last is kept.
abbrev three_turns : List EventRow
three_turns =
    entry 1 user_message (spoken "a")
    ∷ entry 2 agent_message (spoken "b")
    ∷ entry 3 user_message (spoken "c")
    ∷ entry 4 user_message (spoken "d")
    ∷ []
