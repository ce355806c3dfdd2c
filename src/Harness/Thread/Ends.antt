-- ===== src/Harness/Thread/Ends.antt =====
-- How RunThread of internal/harness/harness.go leaves its session.
use jadeenvoy.Errors.{Error, Result, err, is_canceled, ok}
use jadeenvoy.Harness.Settings.{Settings}
use jadeenvoy.Harness.Thread.{close_turn, run_body, run_thread}
use jadeenvoy.Harness.Turn.Ends.{run_loop-Settled}
use jadeenvoy.Harness.Turn.Returns.{Leaves, Leaves-bind}
use jadeenvoy.Prelude.{String, false, if◌then◌else◌, refl, str_eq, ℕ, ◌≡◌}
use jadeenvoy.Rows.{idle}
use jadeenvoy.Store.Settled.{
  Always, Always-bind, Always-if, Settled, mark_session_terminated-Settled, publish-Settled,
  update_session_status-Settled,
}
use jadeenvoy.Stream.{live}
use jadeenvoy.World.{Env, World, attempt, background, ◌>>=◌}
use jadeenvoy.World.Keeps.{Keeps-bind, Keeps-fail, Keeps-ignore}

module _ (env : Env) (h : Settings) (sound : (n : ℕ) → env.db_fault n ≡ false)
    (session : String) where
  run_body-Settled :
      ((n : ℕ) → env.ctx_done n ≡ false)
      → (thread : String) → Leaves (run_body env h session thread) (λ u w. Settled session w)
  unfolding run_body
  run_body-Settled live thread = Leaves-bind _ _ (λ got. Leaves-bind _ _ (λ s.
      Leaves-bind _ _ (λ sandbox. Leaves-bind _ _ (λ u. Leaves-bind _ _ (λ mcp.
        Leaves-bind _ _
          (λ skills. Leaves-bind _ _ (λ resources. run_loop-Settled env sound live h _)))))))

  -- The deferred function runs on a context that no interrupt cancels.
  close_turn-Settled :
      (thread : String) (e : Error)
      → Always (Settled session) (close_turn env h session thread (err e))
  unfolding close_turn
  close_turn-Settled thread e =
      Always-if (is_canceled e) _ _
        (Always-bind _ _
          (update_session_status-Settled session env background idle refl sound (λ n. refl))
          (λ u. Keeps-ignore _ (publish-Settled session env background _ _ _ _)))
        (Always-bind _ _ (mark_session_terminated-Settled session env background sound (λ n. refl))
          (λ u.
            Keeps-bind _ _ (Keeps-ignore _ (publish-Settled session env background _ _ _ _))
              (λ v. Keeps-fail e)))

-- Where the database answers and nobody interrupts, a turn, however it ends, does not leave the
-- session running or rescheduling: the session is idle, terminated or waiting for an action.
pub run_thread-Settled :
    (env : Env) (h : Settings) (session thread : String) (w : World)
    → ((n : ℕ) → env.db_fault n ≡ false)
    → ((n : ℕ) → env.ctx_done n ≡ false)
    → Settled session (run_thread env h session thread w).1
unfolding run_thread ◌>>=◌
run_thread-Settled env h session thread w sound live =
    whole (if str_eq thread "" then "primary" else thread)
  where
    closed :
        (name : String) (r : Result (Unit {0})) (v : World)
        → ((u : Unit {0}) → r ≡ ok u → Settled session v)
        → Settled session (close_turn env h session name r v).1
    closed name (ok u) v s = unfold close_turn in s u refl
    closed name (err e) v s = (close_turn-Settled env h sound session name e).at v

    whole :
        (name : String)
        → Settled session
            ((attempt (run_body env h session name) >>= close_turn env h session name) w).1
    whole name =
        closed name (run_body env h session name w).0 (run_body env h session name w).1
          ((run_body-Settled env h sound session live name).at w)
