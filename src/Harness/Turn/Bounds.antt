-- ===== src/Harness/Turn/Bounds.antt =====
-- The model requests of one turn: compaction, the steps and their attempts.
use jadeenvoy.Broker.Silent.{OfCalls, call_rules, list_events-OfCalls, publish-OfCalls}
use jadeenvoy.Harness.Approvals.{filter_thread_events}
use jadeenvoy.Harness.Compaction.{
  boundaries, compact_before, compact_events, estimate_tokens, keep_from_seq, keep_recent,
  maybe_compact, render_transcript, summarize,
}
use jadeenvoy.Harness.Messages.{Checkpoint, build_messages, find_checkpoint, no_checkpoint}
use jadeenvoy.Harness.Model.Attempts.{stream_model-once}
use jadeenvoy.Harness.Requests.{MakesAtMost, makes-bind, makes-if, makes-more, makes-none}
use jadeenvoy.Harness.Settings.{Settings}
use jadeenvoy.Json.{Raw}
use jadeenvoy.Prelude.{
  List, Option-cases, String, arith, inl, inr, leb, pos, str_eq, ℕ, ◌*◌, ◌+◌, ◌==◌, [],
}
use jadeenvoy.Provider.{ChatRequest}
use jadeenvoy.Rows.{EventRow}
use jadeenvoy.World.{Ctx, Env}
use jadeenvoy.World.Keeps.{Keeps, Keeps-lift, Keeps-pure}

pub build_messages-OfCalls :
    (R : List ChatRequest → List (String × Raw) → Type 0) (env : Env) (ctx : Ctx)
    (session thread : String)
    → Keeps (OfCalls R) (build_messages env ctx session thread)
unfolding build_messages
build_messages-OfCalls R env ctx session thread = search (call_rules, list_events-OfCalls)

module _ (env : Env) where
  summarize-bound : (model text : String) → MakesAtMost 1 (summarize env model text)
  unfolding summarize
  summarize-bound model text =
      makes-bind _ _ (stream_model-once env _) (λ res. makes-none _ (λ R. Keeps-lift _))

  module _ (ctx : Ctx) (h : Settings) (session thread model : String) where
    compact_before-bound :
        (events : List EventRow) (prior : Checkpoint) (from : ℕ)
        → MakesAtMost 1 (compact_before env ctx h session thread model events prior from)
    unfolding compact_before
    compact_before-bound events prior from =
        makes-if (str_eq (render_transcript events prior.through_seq (pos from)) "") _ _
          (makes-more _ (omega arith) (makes-none _ (λ R. Keeps-pure tt)))
          (makes-bind _ _ (summarize-bound model _) (λ summary.
            makes-if (str_eq summary "") _ _ (makes-none _ (λ R. Keeps-pure tt))
              (makes-none _ (λ R. search (call_rules, publish-OfCalls)))))

    compact_events-bound :
        (events : List EventRow)
        → MakesAtMost 1 (compact_events env ctx h session thread model events)
    unfolding compact_events
    compact_events-bound events =
        elim (Option-cases (
          keep_from_seq (keep_recent h)
            (boundaries (find_checkpoint events no_checkpoint).through_seq events))) [
              | inl few ↦
                  rw (few, compact_events)
                    (makes-more _ (omega arith) (makes-none _ (λ R. Keeps-pure tt)))
              | inr (from, enough) ↦
                  rw (enough, compact_events) (compact_before-bound events _ from)
            ]

    pub maybe_compact-bound : MakesAtMost 1 (maybe_compact env ctx h session thread model)
    unfolding maybe_compact
    maybe_compact-bound =
        makes-if (h.compact_threshold_tokens == 0) _ _
          (makes-more _ (omega arith) (makes-none _ (λ R. Keeps-pure tt)))
          (makes-more _ (omega arith) (
            makes-bind _ _ (makes-none _ (λ R. build_messages-OfCalls R env ctx session thread))
              (λ msgs.
                makes-if (leb (estimate_tokens env msgs) h.compact_threshold_tokens) _ _
                  (makes-more _ (omega arith) (makes-none _ (λ R. Keeps-pure tt)))
                  (makes-bind _ _ (makes-none _ (λ R. list_events-OfCalls R env ctx session []))
                    (λ all. compact_events-bound (filter_thread_events all thread))))))

-- The bound of one turn: a summary, and in each step a call with its retries.
abbrev pub most_requests : Settings → ℕ
most_requests h = h.max_steps * (h.max_retries + 1) + 1
