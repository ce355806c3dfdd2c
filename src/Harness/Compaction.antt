-- ===== src/Harness/Compaction.antt =====
-- internal/harness/compaction.go: the summary of a long history at a turn's boundary.
pub mod Keeps
use jadeenvoy.Broker.{publish}
use jadeenvoy.Errors.{Result, err, message, ok}
use jadeenvoy.Harness.Approvals.{filter_thread_events}
use jadeenvoy.Harness.Messages.{
  Checkpoint, build_messages, find_checkpoint, is_user_message, no_checkpoint, text_block,
}
use jadeenvoy.Harness.Settings.{Settings}
use jadeenvoy.Prelude.{
  List, Option, String, [], get_elem?, if◌then◌else◌, leb, leb_ℤ, len, length, ltb, none, not, pos,
  pred_ℤ, some, str_eq, trim_space, ℕ, ℤ, ◌&&◌, ◌++◌, ◌+◌, ◌-◌, ◌/◌, ◌<>◌, ◌==◌, ◌||◌, ◌∷◌,
}
use jadeenvoy.Provider.{
  ChatEvent, ChatRequest, ContentBlock, Message, error_event, stop_reason, text_delta,
  tool_use_delta, tool_use_start, user,
}
use jadeenvoy.Rows.{
  EventRow, agent_custom_tool_use, agent_message, agent_thread_context_compacted, agent_tool_result,
  agent_tool_use, type_text, user_custom_tool_result, user_message,
}
use jadeenvoy.Store.Event.{list_events}
use jadeenvoy.World.{Ctx, Env, M, ask, lift, modify, pure, ◌>>=◌, ◌>>◌}
use jadeenvoy.Json.{Value, Raw, as_list, as_string, get, num, object, str}

raw_len : Env → Raw → ℕ
raw_len env none = 0
raw_len env (some v) = env.json_len v

chars_of : Env → List ContentBlock → ℕ
unfolding raw_len
chars_of env [] = 0
chars_of env (b ∷ bs) = len b.text + raw_len env b.tool_input + len b.tool_result + chars_of env bs

total_chars : Env → List Message → ℕ
unfolding chars_of
total_chars env [] = 0
total_chars env (m ∷ ms) = chars_of env m.content + total_chars env ms

unfoldable pub estimate_tokens : Env → List Message → ℕ
unfolding total_chars
estimate_tokens env msgs = total_chars env msgs / 4

texts_of : List Value → String
texts_of [] = ""
texts_of (v ∷ vs) = as_string (get "text" v) <> texts_of vs

unfoldable pub extract_text : Value → String
unfolding texts_of
extract_text p = texts_of (as_list (get "content" p))

abbrev payload_string : Value → String → String
payload_string p key = as_string (get key p)

unfoldable pub transcript_line : EventRow → String
unfolding extract_text
transcript_line ev = elim ev.type [
  | user_message ↦ "User: " <> (extract_text ev.payload <> "\n")
  | agent_message ↦ "Assistant: " <> (extract_text ev.payload <> "\n")
  | agent_tool_use ↦ "Assistant called tool " <> (payload_string ev.payload "name" <> "\n")
  | agent_custom_tool_use ↦ "Assistant called tool " <> (payload_string ev.payload "name" <> "\n")
  | agent_tool_result ↦ "Tool result: " <> (payload_string ev.payload "content" <> "\n")
  | user_custom_tool_result ↦ "Tool result: " <> (payload_string ev.payload "content" <> "\n")
  | _ ↦ ""
]

-- The events strictly between two numbers.
unfoldable pub render_transcript : List EventRow → ℤ → ℤ → String
unfolding transcript_line
render_transcript [] after before = ""
render_transcript (ev ∷ events) after before =
    let rest = render_transcript events after before in
    if leb_ℤ (pos ev.seq) after || leb_ℤ before (pos ev.seq)
    then rest
    else transcript_line ev <> rest

-- The starts of the user's turns beyond the last checkpoint.
unfoldable pub boundaries : ℤ → List EventRow → List ℕ
boundaries prior [] = []
boundaries prior (ev ∷ events) =
    let rest = boundaries prior events in
    if not (leb_ℤ (pos ev.seq) prior) && is_user_message ev.type then ev.seq ∷ rest else rest

-- The start of the first turn that stays, where enough turns are left to compact.
unfoldable pub keep_from_seq : ℕ → List ℕ → Option ℕ
keep_from_seq keep bs = if ltb (length bs) (keep + 1) then none else get_elem? bs (length bs - keep)

unfoldable pub keep_recent : Settings → ℕ
keep_recent h = if h.keep_recent_turns == 0 then 3 else h.keep_recent_turns

abbrev compaction_system_prompt : String
compaction_system_prompt =
    "You are a conversation-history compaction assistant. Summarize the prior conversation faithfully and concisely, preserving the user's goals, key decisions, file paths, and any state needed to continue the task. Output only the summary."

unfoldable pub collect_summary : List ChatEvent → String → Result String
collect_summary [] buf = ok (trim_space buf)
collect_summary (text_delta t ∷ es) buf = collect_summary es (buf <> t)
collect_summary (stop_reason r u ∷ es) buf = ok (trim_space buf)
collect_summary (error_event e ∷ es) buf =
    err (message ("summarize: " <> (e.type <> (" — " <> e.message))))
collect_summary (tool_use_start id name ∷ es) buf = collect_summary es buf
collect_summary (tool_use_delta id s ∷ es) buf = collect_summary es buf

unfoldable pub compaction_payload : String → ℤ → Value
compaction_payload summary through = object (
    ("type", str (type_text agent_thread_context_compacted))
    ∷ ("summary", str summary)
    ∷ ("through_seq", num through)
    ∷ [])

abbrev material : String → String → String
material prior transcript =
    if str_eq prior ""
    then transcript
    else "Summary of earlier conversation:\n"
      <> (prior <> ("\n\nNewer conversation:\n" <> transcript))

collected : Result (List ChatEvent) → Result String
collected (ok es) = collect_summary es ""
collected (err e) = err e

-- Provider.Stream, with the request on record
unfoldable pub stream_model : Env → ChatRequest → M (Result (List ChatEvent))
stream_model env req = do
  modify (λ w. record w { requests = w.requests ++ req ∷ [] })
  ask (λ n. env.stream n req)

unfoldable pub summarize : Env → String → String → M String
unfolding collected
summarize env model text = do
  res ← stream_model env (record {
    model = model;
    system = compaction_system_prompt;
    messages = record { role = user; content = text_block text ∷ [] } ∷ [];
    tools = [];
    max_tokens = 1024;
  })
  lift (collected res)

module _ (env : Env) (ctx : Ctx) (h : Settings) (session thread model : String) where
  -- The summary of the events before `from`, written as a checkpoint.
  unfoldable pub compact_before : List EventRow → Checkpoint → ℕ → M (Unit {0})
  compact_before events prior from =
      let transcript = render_transcript events prior.through_seq (pos from) in
      if str_eq transcript "" then pure tt else do
        summary ← summarize env model (material prior.summary transcript)
        if str_eq summary "" then pure tt else (do
          publish env ctx session agent_thread_context_compacted thread
              (some (compaction_payload summary (pred_ℤ (pos from))))
          pure tt)

  unfoldable pub compact_events : List EventRow → M (Unit {0})
  compact_events events =
      let prior = find_checkpoint events no_checkpoint in
      elim (keep_from_seq (keep_recent h) (boundaries prior.through_seq events)) [
        | none ↦ pure tt
        | some from ↦ compact_before events prior from
      ]

  unfoldable pub maybe_compact : M (Unit {0})
  maybe_compact = if h.compact_threshold_tokens == 0 then pure tt else do
    msgs ← build_messages env ctx session thread
    if leb (estimate_tokens env msgs) h.compact_threshold_tokens then pure tt else (do
      all ← list_events env ctx session []
      compact_events (filter_thread_events all thread))
