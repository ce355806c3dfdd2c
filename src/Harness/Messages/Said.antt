-- ===== src/Harness/Messages/Said.antt =====
-- What buildMessages of internal/harness/messages.go says of the log.
use jadeenvoy.Harness.Guardrails.{is_empty}
use mathlib.Core.List.{append-nil, append_assoc, map-append}
use jadeenvoy.Harness.Messages.{
  Building, blocks_of, flushed, is_user_message, role_of, summary_blocks, same_role, speak,
  add_event, add_events, find_checkpoint, finish_messages, messages_of, model_ids, no_checkpoint,
}
use jadeenvoy.Prelude.{
  List, Option, String, [], if◌then◌else◌, leb_ℤ, map, none, not, pos, refl, select, some, sym, ℤ,
  ◌++◌, ◌∷◌, ◌≡◌, Bool-cases, arith, inl, inr, true, Option-cases, ap, first, str_eq, ◌∙◌, false,
}
use jadeenvoy.Provider.{ContentBlock, Message, Role, assistant, user}
use jadeenvoy.Rows.{EventRow, EventType}

-- The blocks of a message with its role, and those of a list of messages.
abbrev pub said_by : Role → List ContentBlock → List (Role × ContentBlock)
said_by r bs = map (λ b. (r, b)) bs

pub said_in : List Message → List (Role × ContentBlock)
said_in [] = []
said_in (m ∷ ms) = said_by m.role m.content ++ said_in ms

-- What an event should say, and a log: the summary comes before the first user message.
abbrev pub speech : List (String × String) → Option String → EventRow → List (Role × ContentBlock)
speech ids pending ev = elim (role_of ev.type) [
  | none ↦ []
  | some r ↦
      said_by r
        ((if is_user_message ev.type then summary_blocks pending else []) ++ blocks_of ids ev)
]

abbrev pub still_pending : EventType → Option String → Option String
still_pending type pending = if is_user_message type then none else pending

pub speeches : List (String × String) → Option String → List EventRow → List (Role × ContentBlock)
speeches ids pending [] = []
speeches ids pending (ev ∷ events) =
    speech ids pending ev ++ speeches ids (still_pending ev.type pending) events

-- The events that no checkpoint stands for.
unfoldable pub retained : ℤ → List EventRow → List EventRow
retained cutoff = select (λ ev. not (leb_ℤ (pos ev.seq) cutoff))

said_in-append : (ms ns : List Message) → said_in (ms ++ ns) ≡ said_in ms ++ said_in ns
unfolding said_in
said_in-append [] ns = refl
said_in-append (m ∷ ms) ns =
    rw (said_in-append ms ns)
      (sym (append_assoc (said_by m.role m.content) (said_in ms) (said_in ns)))

said_in-flushed : (m : Message) → said_in (flushed (some m)) ≡ said_by m.role m.content
unfolding said_in
said_in-flushed m = kept m.content refl
  where
    kept :
        (bs : List ContentBlock)
        → bs ≡ m.content
        → said_in (if is_empty bs then [] else m ∷ []) ≡ said_by m.role m.content
    kept [] h = rw (← h) refl
    kept (b ∷ bs) h = append-nil _

said_in-open :
    (ms : List Message) (m : Message)
    → said_in (ms ++ flushed (some m)) ≡ said_in ms ++ said_by m.role m.content
said_in-open ms m =
    said_in-append ms (flushed (some m)) ∙ ap (λ l. said_in ms ++ l) (said_in-flushed m)

-- What the state of the loop has said so far.
abbrev said : Building → List (Role × ContentBlock)
said st = said_in (st.msgs ++ flushed st.current)

same_role-eq : (r s : Role) → same_role r s ≡ true → r ≡ s
same_role-eq user user h = refl
same_role-eq assistant assistant h = refl
same_role-eq user assistant h = absurd (ground arith)
same_role-eq assistant user h = absurd (ground arith)

said-speak :
    (r : Role) (bs : List ContentBlock) (st : Building)
    → said (speak r bs st) ≡ said st ++ said_by r bs
unfolding speak
said-speak r bs st = from st.current refl
  where
    from : (o : Option Message) → o ≡ st.current → said (speak r bs st) ≡ said st ++ said_by r bs
    from none h = rw (← h) (
        said_in-open st.msgs (record { role = r; content = bs })
        ∙ ap (λ l. said_in l ++ said_by r bs) (sym (append-nil st.msgs)))
    from (some m) h = elim (Bool-cases (same_role m.role r)) [
      | inl same ↦
          rw (← h, same)
            (said_in-open st.msgs (record m { content = m.content ++ bs })
              ∙ ap (λ l. said_in st.msgs ++ l)
                  (map-append _ m.content bs
                    ∙ ap (λ s. said_by m.role m.content ++ said_by s bs)
                        (same_role-eq m.role r same))
              ∙ sym (append_assoc (said_in st.msgs) (said_by m.role m.content) (said_by r bs))
              ∙ ap (λ l. l ++ said_by r bs) (sym (said_in-open st.msgs m)))
      | inr differs ↦
          rw (← h, differs)
            (said_in-open (st.msgs ++ flushed (some m)) (record { role = r; content = bs }))
    ]

said-add_event :
    (ids : List (String × String)) (ev : EventRow) (st : Building)
    → said (add_event ids ev st) ≡ said st ++ speech ids st.pending ev
unfolding add_event
said-add_event ids ev st = elim (Option-cases (role_of ev.type)) [
  | inl silent ↦ rw (silent, speech, add_event) (sym (append-nil (said st)))
  | inr (r, speaks) ↦ elim (Bool-cases (is_user_message ev.type)) [
    | inl first ↦
        rw (speaks, first, speech, add_event)
          (said-speak r (summary_blocks st.pending ++ blocks_of ids ev) st)
    | inr later ↦ rw (speaks, later, speech, add_event) (said-speak r (blocks_of ids ev) st)
  ]
]

pending-speak :
    (r : Role) (bs : List ContentBlock) (st : Building) → (speak r bs st).pending ≡ st.pending
unfolding speak
pending-speak r bs st = ground arith

silent-user : (t : EventType) → role_of t ≡ none → is_user_message t ≡ false
unfolding role_of
silent-user t h = ground (arith, h)

pending-add_event :
    (ids : List (String × String)) (ev : EventRow) (st : Building)
    → (add_event ids ev st).pending ≡ still_pending ev.type st.pending
unfolding add_event role_of
pending-add_event ids ev st = elim (Option-cases (role_of ev.type)) [
  | inl silent ↦ rw (silent, add_event, silent-user ev.type silent) refl
  | inr (r, speaks) ↦ elim (Bool-cases (is_user_message ev.type)) [
    | inl first ↦ rw (speaks, first, add_event) refl
    | inr later ↦ rw (speaks, later, add_event) (pending-speak r (blocks_of ids ev) st)
  ]
]

said-add_events :
    (ids : List (String × String)) (cutoff : ℤ) (events : List EventRow) (st : Building)
    → said (add_events ids cutoff events st)
      ≡ said st ++ speeches ids st.pending (retained cutoff events)
unfolding add_events speeches retained
said-add_events ids cutoff [] st = sym (append-nil (said st))
said-add_events ids cutoff (ev ∷ events) st = elim (Bool-cases (leb_ℤ (pos ev.seq) cutoff)) [
  | inl old ↦ rw (old, add_events) (said-add_events ids cutoff events st)
  | inr new ↦
      rw (new, add_events)
        (said-add_events ids cutoff events (add_event ids ev st)
          ∙ ap (λ l. l ++ speeches ids (add_event ids ev st).pending (retained cutoff events))
              (said-add_event ids ev st)
          ∙ append_assoc (said st) (speech ids st.pending ev) _
          ∙ ap
              (λ p.
                said st ++ (speech ids st.pending ev ++ speeches ids p (retained cutoff events)))
              (pending-add_event ids ev st))
]

-- The messages that the model is given, read as blocks with their roles, are what the events of the
-- thread beyond the last checkpoint say: each event's blocks once, in the order of the log, with
-- the checkpoint's summary before the first user message and nowhere else.
pub messages_of-speeches :
    (events : List EventRow)
    → said_in (messages_of events)
      ≡ speeches
          (model_ids events [])
          (if str_eq (find_checkpoint events no_checkpoint).summary ""
            then none
            else some (find_checkpoint events no_checkpoint).summary)
          (retained (find_checkpoint events no_checkpoint).through_seq events)
unfolding messages_of finish_messages said_in
messages_of-speeches events =
    said-add_events (model_ids events []) (find_checkpoint events no_checkpoint).through_seq events
      (record {
        msgs = [];
        current = none;
        pending =
            if str_eq (find_checkpoint events no_checkpoint).summary ""
            then none
            else some (find_checkpoint events no_checkpoint).summary;
      })
