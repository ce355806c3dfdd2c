-- ===== src/Harness/Messages/Roles.antt =====
-- The shape of the messages that buildMessages of internal/harness/messages.go returns.
use jadeenvoy.Harness.Messages.Said.{retained}
use jadeenvoy.Harness.Guardrails.{is_empty}
use jadeenvoy.Harness.Messages.{
  Building, blocks_of, role_of, same_role, speak, block_of, add_event, add_events, find_checkpoint,
  finish_messages, flushed, is_user_message, messages_of, model_ids, no_checkpoint, summary_blocks,
}
use jadeenvoy.Json.{as_list, get}
use jadeenvoy.Prelude.{
  All, Bool, List, Option, String, [], arith, false, map, none, not, refl, some, true, ◌++◌, ◌∷◌,
  ◌≡◌, Bool-cases, inl, inr, All-append, Option-cases, first, if◌then◌else◌, leb_ℤ, pos, subst, ℤ,
}
use jadeenvoy.Provider.{ContentBlock, Message, Role}
use jadeenvoy.Rows.{EventRow, agent_message, user_message}

-- Neighbours have different roles.
pub Alternates : List Message → Type 0
Alternates [] = Unit
Alternates (m ∷ []) = Unit
Alternates (m ∷ n ∷ ms) = (same_role m.role n.role ≡ false) × Alternates (n ∷ ms)

-- A message event has at least one block.
unfoldable pub has_content : EventRow → Bool
has_content ev = elim ev.type [
  | user_message ↦ not (is_empty (as_list (get "content" ev.payload)))
  | agent_message ↦ not (is_empty (as_list (get "content" ev.payload)))
  | _ ↦ true
]

abbrev pub NonEmpty : Message → Type 0
NonEmpty m = is_empty m.content ≡ false

is_empty-map : {A B : Type 0} (f : A → B) (xs : List A) → is_empty (map f xs) ≡ is_empty xs
is_empty-map f [] = refl
is_empty-map f (x ∷ xs) = refl

blocks_of-content :
    (ids : List (String × String)) (ev : EventRow) (r : Role)
    → role_of ev.type ≡ some r
    → has_content ev ≡ true
    → is_empty (blocks_of ids ev) ≡ false
unfolding blocks_of has_content role_of
blocks_of-content ids ev r speaks h =
    (ground (arith, h, speaks, is_empty-map block_of (as_list (get "content" ev.payload))))

opened : Option Message → List Message
opened none = []
opened (some m) = m ∷ []

Alternates-grow :
    (ms : List Message) (m n : Message)
    → same_role m.role n.role ≡ false
    → Alternates (ms ++ m ∷ [])
    → Alternates ((ms ++ m ∷ []) ++ n ∷ [])
unfolding Alternates
Alternates-grow [] m n d a = (d, tt)
Alternates-grow (x ∷ []) m n d a = (a.0, (d, tt))
Alternates-grow (x ∷ y ∷ ms) m n d a = (a.0, Alternates-grow (y ∷ ms) m n d a.1)

Alternates-swap :
    (ms : List Message) (m n : Message)
    → m.role ≡ n.role
    → Alternates (ms ++ m ∷ [])
    → Alternates (ms ++ n ∷ [])
unfolding Alternates
Alternates-swap [] m n e a = tt
Alternates-swap (x ∷ []) m n e a = (rw (← e) a.0, tt)
Alternates-swap (x ∷ y ∷ ms) m n e a = (a.0, Alternates-swap (y ∷ ms) m n e a.1)

-- While every event brings a block, no current message is dropped.
record IsSound (st : Building) : Type 0 where
  alternates : Alternates (st.msgs ++ opened st.current)
  starts : st.current ≡ none → st.msgs ≡ []
  full : All NonEmpty (opened st.current)

is_empty-append : {A : Type 0} (xs ys : List A) → is_empty xs ≡ false → is_empty (xs ++ ys) ≡ false
is_empty-append (x ∷ xs) ys h = refl
is_empty-append [] ys h = absurd (ground arith)

speak-IsSound :
    (r : Role) (bs : List ContentBlock) (st : Building)
    → is_empty bs ≡ false
    → IsSound st
    → IsSound (speak r bs st)
unfolding speak opened
speak-IsSound r bs st some_block s = from st.msgs st.pending st.current s
  where
    from :
        (ms : List Message) (p : Option String) (o : Option Message)
        → IsSound (record { msgs = ms; current = o; pending = p })
        → IsSound (speak r bs (record { msgs = ms; current = o; pending = p }))
    from ms p none s = record {
      alternates = rw (s.starts refl) (unfold Alternates in tt);
      starts = λ h. absurd (ground (arith, h));
      full = (some_block, tt);
    }
    from ms p (some m) s = elim (Bool-cases (same_role m.role r)) [
      | inl same ↦ rw same (record {
        alternates =
            Alternates-swap ms m (record m { content = m.content ++ bs }) refl s.alternates;
        starts = λ h. absurd (ground (arith, h));
        full = (is_empty-append m.content bs s.full.0, tt);
      })
      | inr differs ↦
          rw (differs, s.full.0)
            (record {
              alternates =
                  Alternates-grow ms m (record { role = r; content = bs }) differs s.alternates;
              starts = λ h. absurd (ground (arith, h));
              full = (some_block, tt);
            })
    ]

is_empty-append_right :
    {A : Type 0} (xs ys : List A) → is_empty ys ≡ false → is_empty (xs ++ ys) ≡ false
is_empty-append_right [] ys h = h
is_empty-append_right (x ∷ xs) ys h = refl

add_event-IsSound :
    (ids : List (String × String)) (ev : EventRow) (st : Building)
    → has_content ev ≡ true
    → IsSound st
    → IsSound (add_event ids ev st)
unfolding add_event
add_event-IsSound ids ev st h s = elim (Option-cases (role_of ev.type)) [
  | inl silent ↦ rw (silent, add_event) s
  | inr (r, speaks) ↦ elim (Bool-cases (is_user_message ev.type)) [
    | inl first ↦
        let k =
          speak-IsSound r (summary_blocks st.pending ++ blocks_of ids ev) st
            (is_empty-append_right (summary_blocks st.pending) (blocks_of ids ev)
              (blocks_of-content ids ev r speaks h))
            s in
        rw (speaks, first, add_event)
          (record { alternates = k.alternates; starts = k.starts; full = k.full })
    | inr later ↦
        rw (speaks, later, add_event)
          (speak-IsSound r (blocks_of ids ev) st (blocks_of-content ids ev r speaks h) s)
  ]
]

add_events-IsSound :
    (ids : List (String × String)) (cutoff : ℤ) (events : List EventRow) (st : Building)
    → All (λ ev. has_content ev ≡ true) (retained cutoff events)
    → IsSound st
    → IsSound (add_events ids cutoff events st)
unfolding add_events retained
add_events-IsSound ids cutoff [] st a s = s
add_events-IsSound ids cutoff (ev ∷ events) st a s = elim (Bool-cases (leb_ℤ (pos ev.seq) cutoff)) [
  | inl old ↦
      rw (old, add_events)
        (add_events-IsSound ids cutoff events st
          (subst
            (λ b.
              All (λ ev. has_content ev ≡ true)
                (if not b then ev ∷ retained cutoff events else retained cutoff events))
            old a)
          s)
  | inr new ↦
      let a' : All (λ ev. has_content ev ≡ true) (ev ∷ retained cutoff events) =
        subst
          (λ b.
            All (λ ev. has_content ev ≡ true)
              (if not b then ev ∷ retained cutoff events else retained cutoff events))
          new a in
      rw (new, add_events)
        (add_events-IsSound ids cutoff events (add_event ids ev st) a'.1
          (add_event-IsSound ids ev st a'.0 s))
]

finish-Alternates : (st : Building) → IsSound st → Alternates (finish_messages st)
unfolding finish_messages opened
finish-Alternates st s = from st.msgs st.pending st.current s
  where
    from :
        (ms : List Message) (p : Option String) (o : Option Message)
        → IsSound (record { msgs = ms; current = o; pending = p })
        → Alternates (finish_messages (record { msgs = ms; current = o; pending = p }))
    from ms p none s = s.alternates
    from ms p (some m) s = rw s.full.0 s.alternates

IsSound-start : (p : Option String) → IsSound (record { msgs = []; current = none; pending = p })
unfolding Alternates opened
IsSound-start p = record { alternates = tt; starts = λ h. refl; full = tt }

-- If every message event beyond the checkpoint has content, the messages that the model is given
-- alternate between the user and the assistant.
pub messages_of-Alternates :
    (events : List EventRow)
    → All
        (λ ev. has_content ev ≡ true)
        (retained (find_checkpoint events no_checkpoint).through_seq events)
    → Alternates (messages_of events)
unfolding messages_of
messages_of-Alternates events a =
    finish-Alternates _ (add_events-IsSound (model_ids events []) _ events _ a (IsSound-start _))

NonEmpty-flushed : (o : Option Message) → All NonEmpty (flushed o)
NonEmpty-flushed none = tt
NonEmpty-flushed (some m) = elim (Bool-cases (is_empty m.content)) [
  | inl e ↦ rw e tt
  | inr e ↦ rw e (e, tt)
]

NonEmpty-speak :
    (r : Role) (bs : List ContentBlock) (st : Building)
    → All NonEmpty st.msgs
    → All NonEmpty (speak r bs st).msgs
unfolding speak
NonEmpty-speak r bs st a = from st.current
  where
    from : (o : Option Message) → All NonEmpty (speak r bs (record st { current = o })).msgs
    from none = a
    from (some m) = elim (Bool-cases (same_role m.role r)) [
      | inl same ↦ rw same a
      | inr differs ↦ rw differs (All-append NonEmpty st.msgs _ a (NonEmpty-flushed (some m)))
    ]

NonEmpty-add_event :
    (ids : List (String × String)) (ev : EventRow) (st : Building)
    → All NonEmpty st.msgs
    → All NonEmpty (add_event ids ev st).msgs
unfolding add_event
NonEmpty-add_event ids ev st a = elim (Option-cases (role_of ev.type)) [
  | inl silent ↦ rw (silent, add_event) a
  | inr (r, speaks) ↦ elim (Bool-cases (is_user_message ev.type)) [
    | inl first ↦ rw (speaks, first, add_event) (NonEmpty-speak r _ st a)
    | inr later ↦ rw (speaks, later, add_event) (NonEmpty-speak r _ st a)
  ]
]

NonEmpty-add_events :
    (ids : List (String × String)) (cutoff : ℤ) (events : List EventRow) (st : Building)
    → All NonEmpty st.msgs
    → All NonEmpty (add_events ids cutoff events st).msgs
unfolding add_events
NonEmpty-add_events ids cutoff [] st a = a
NonEmpty-add_events ids cutoff (ev ∷ events) st a = elim (Bool-cases (leb_ℤ (pos ev.seq) cutoff)) [
  | inl old ↦ rw (old, add_events) (NonEmpty-add_events ids cutoff events st a)
  | inr new ↦
      rw (new, add_events)
        (NonEmpty-add_events ids cutoff events (add_event ids ev st)
          (NonEmpty-add_event ids ev st a))
]

-- Whatever the log holds, no message that the model is given is empty.
pub messages_of-NonEmpty : (events : List EventRow) → All NonEmpty (messages_of events)
unfolding messages_of finish_messages
messages_of-NonEmpty events =
    All-append NonEmpty _ _ (NonEmpty-add_events (model_ids events []) _ events _ tt)
      (NonEmpty-flushed _)
