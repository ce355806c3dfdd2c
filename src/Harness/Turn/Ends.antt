-- ===== src/Harness/Turn/Ends.antt =====
-- How the loop of RunThread in internal/harness/harness.go leaves its session.

use jadeenvoy.Errors.{ok}
use jadeenvoy.Harness.Agent.{Outcome, Turn, finished, goes_on, idle_payload, needs_approval, paused}
use jadeenvoy.Harness.CustomTools.{is_custom_tool}
use jadeenvoy.Harness.Guardrails.{is_empty, tool_allowed_by_guardrails}
use jadeenvoy.Harness.Model.{PendingToolUse}
use jadeenvoy.Harness.Settings.{Settings}
use jadeenvoy.Harness.Turn.{
  after_model, announce, change_status, end_turn, hand_to_client, handle_tool, handle_tools,
  refuse_tool, run_loop, run_step, run_steps, run_tool, wait_for_approval,
}
use jadeenvoy.Harness.Turn.Returns.{
  Leaves, Leaves-always, Leaves-bind, Leaves-if, Leaves-pure, Leaves-step, at_pure,
}
use jadeenvoy.Json.{Raw}
use jadeenvoy.Prelude.{
  List, String, [], arith, false, not, refl, some, suc, true, zero, ℕ, ◌+◌, ◌∷◌, ◌≡◌,
}
use jadeenvoy.Rows.{EventType, Status, idle, requires_action, session_status_idle}
use jadeenvoy.Store.Settled.{
  Always, Always-bind, Settled, get_session-Settled, is_settled, publish-Settled,
  update_session_status-Settled,
}
use jadeenvoy.World.{Env, M, World, pure, turn, ◌>>=◌}
use jadeenvoy.World.Keeps.{Keeps, Keeps-bind, Keeps-ignore, Keeps-pure}

-- A pause leaves the session settled, and the loop never ends without a verdict.
abbrev Left : String → Outcome → World → Type 0
Left id goes_on w = Unit
Left id paused w = Settled id w
Left id (finished s) w = Unit

module _ (env : Env) (sound : (n : ℕ) → env.db_fault n ≡ false)
    (live : (n : ℕ) → env.ctx_done n ≡ false) (h : Settings) (t : Turn) where
  change_status-Settled :
      (s : Status) → is_settled s ≡ true → Always (Settled t.session) (change_status env h t s)
  unfolding change_status
  change_status-Settled s settled =
      update_session_status-Settled t.session env turn s settled sound live

  announce-Settled :
      (type : EventType) (payload : Raw) → Keeps (Settled t.session) (announce env h t type payload)
  unfolding announce
  announce-Settled type payload = Keeps-ignore _ (publish-Settled t.session env turn _ _ _ _)

  hand_to_client-Settled :
      (pt : PendingToolUse) → Always (Settled t.session) (hand_to_client env h t pt)
  unfolding hand_to_client
  hand_to_client-Settled pt = Always-bind _ _ (change_status-Settled requires_action refl) (λ u.
      Keeps-bind _ _ (Keeps-ignore _ (get_session-Settled t.session env turn t.session))
        (λ v. Keeps-bind _ _ (announce-Settled _ _) (λ x. Keeps-pure _)))

  wait_for_approval-Settled :
      (event_id : String) → Always (Settled t.session) (wait_for_approval env h t event_id)
  unfolding wait_for_approval
  wait_for_approval-Settled event_id =
      Always-bind _ _ (change_status-Settled idle refl)
        (λ u. Keeps-bind _ _ (announce-Settled _ _) (λ x. Keeps-pure _))

  Left-always : (o : Outcome) (w : World) → Settled t.session w → Left t.session o w
  Left-always goes_on w s = tt
  Left-always paused w s = s
  Left-always (finished x) w s = tt

  handle_tool-Left : (pt : PendingToolUse) → Leaves (handle_tool env h t pt) (Left t.session)
  unfolding handle_tool refuse_tool run_tool
  handle_tool-Left pt = Leaves-bind _ _ (λ ev.
      Leaves-if (not (tool_allowed_by_guardrails t.agent.guardrails pt.name).0) _ _
        (Leaves-bind _ _ (λ u. Leaves-bind _ _ (λ v. Leaves-pure goes_on (λ w. tt))))
        (Leaves-if (is_custom_tool t.custom pt.name) _ _
          (Leaves-always _ (hand_to_client-Settled pt) Left-always)
          (Leaves-if (needs_approval t pt.name) _ _
            (Leaves-always _ (wait_for_approval-Settled ev.id) Left-always)
            (Leaves-bind _ _ (λ u. Leaves-bind _ _ (λ v. Leaves-pure goes_on (λ w. tt)))))))

  -- The loop over the tools is left at the first pause.
  handle_tools-Left :
      (pts : List PendingToolUse) → Leaves (handle_tools env h t pts) (Left t.session)
  unfolding handle_tools
  handle_tools-Left [] = Leaves-pure goes_on (λ w. tt)
  handle_tools-Left (pt ∷ pts) =
      Leaves-step _ _ (handle_tool-Left pt) (after (handle_tools-Left pts))
    where
      after :
          Leaves (handle_tools env h t pts) (Left t.session)
          → (o : Outcome) (w : World) → Left t.session o w
          → (b : Outcome)
          → let m = elim o as (λ x. M Outcome) [
            | goes_on ↦ handle_tools env h t pts
            | paused ↦ pure paused
            | finished s ↦ pure (finished s)
          ] in
            (m w).0 ≡ ok b → Left t.session b (m w).1
      after rest goes_on w q b e = rest.at w b e
      after rest paused w q b e = at_pure (Left t.session) paused w q b e
      after rest (finished s) w q b e = at_pure (Left t.session) (finished s) w q b e

  run_step-Left : (step : ℕ) → Leaves (run_step env h t step) (Left t.session)
  unfolding run_step after_model
  run_step-Left step = Leaves-bind _ _ (λ u. Leaves-bind _ _ (λ built. Leaves-bind _ _ (λ ms.
      Leaves-bind _ _ (λ v. Leaves-bind _ _ (λ r. Leaves-bind _ _ (λ a. Leaves-bind _ _ (λ b.
        Leaves-bind _ _ (λ c.
          Leaves-if (is_empty r.tools) _ _ (Leaves-pure _ (λ w. tt))
            (handle_tools-Left r.tools)))))))))

  -- After the loop there is a verdict.
  Final : Outcome → World → Type 0
  Final goes_on w = true ≡ false
  Final paused w = Settled t.session w
  Final (finished s) w = Unit

  run_steps-Final : (left step : ℕ) → Leaves (run_steps env h t left step) Final
  unfolding run_steps Final
  run_steps-Final zero step = Leaves-pure _ (λ w. tt)
  run_steps-Final (suc left) step =
      Leaves-step _ _ (run_step-Left step) (after (run_steps-Final left (step + 1)))
    where
      after :
          Leaves (run_steps env h t left (step + 1)) Final
          → (o : Outcome) (w : World) → Left t.session o w
          → (b : Outcome)
          → let m = elim o as (λ x. M Outcome) [
            | goes_on ↦ run_steps env h t left (step + 1)
            | paused ↦ pure paused
            | finished s ↦ pure (finished s)
          ] in
            (m w).0 ≡ ok b → Final b (m w).1
      after rest goes_on w q b e = rest.at w b e
      after rest paused w q b e = at_pure Final paused w q b e
      after rest (finished s) w q b e = at_pure Final (finished s) w tt b e

  end_turn-Settled :
      (o : Outcome) (w : World)
      → Final o w
      → (b : Unit {0}) → (end_turn env h t o w).0 ≡ ok b
      → Settled t.session (end_turn env h t o w).1
  unfolding end_turn Final ◌>>=◌
  end_turn-Settled goes_on w q b e = absurd (ground (arith, q))
  end_turn-Settled paused w q b e = q
  end_turn-Settled (finished s) w q b e =
      (Always-bind _ _ (change_status-Settled idle refl)
          (λ u. announce-Settled session_status_idle (some (idle_payload s)))).at
        w

  pub run_loop-Settled : Leaves (run_loop env h t) (λ u w. Settled t.session w)
  unfolding run_loop
  run_loop-Settled = Leaves-bind _ _ (λ a. Leaves-bind _ _ (λ b. Leaves-bind _ _ (λ c.
      Leaves-bind _ _ (λ d.
        Leaves-bind _ _ (λ e. Leaves-step _ _ (run_steps-Final h.max_steps 0) end_turn-Settled)))))
