-- ===== src/Store/Log/Outcome.antt =====
-- The two outcomes of AppendEvent, as one case split.
use jadeenvoy.Prelude.{◌≡◌, refl, ◌⊎◌, inl, inr, some, Bool-cases}
use jadeenvoy.Errors.{Error, Result, ok, err}
use jadeenvoy.Rows.{EventRow, SessionRow, Db, find_session}
use jadeenvoy.World.{Env, World, Ctx, is_done, next, set_db, ◌>>=◌}
use jadeenvoy.Store.Event.{AppendEventInput, append_event, append_tx, commit_tx, committed}
use jadeenvoy.Store.Log.Append.{append_tx-ok, appended}

-- The session's row when the event was appended.
pub record Appends (input : AppendEventInput) (w : World) (row : EventRow) : Type 0 where
  pub owner : SessionRow
  pub found : find_session input.session_id w.db.sessions ≡ some owner
  pub session : row.session_id ≡ input.session_id
  pub number : row.seq ≡ owner.next_seq

module _ (env : Env) (ctx : Ctx) (input : AppendEventInput) (w : World) where
  -- Either an error, and the tables are as before, or the row is added.
  pub append_event-cases :
      ((e : Error) × (append_event env ctx input w ≡ (err e, next w)))
      ⊎ ((row : EventRow) × (append_event env ctx input w
            ≡ (ok row, set_db (appended row w.db) (next w)))
          × Appends input w row)
  unfolding append_event ◌>>=◌ commit_tx
  append_event-cases = elim (Bool-cases (is_done env ctx w.tick)) [
    | inl done ↦ inl (Error.canceled, rw done)
    | inr live ↦ elim (Bool-cases (env.db_fault w.tick)) [
      | inl fault ↦ inl (Error.db_error, rw (live, fault))
      | inr sound ↦
          rw (live, sound)
            (answered (append_tx (env.new_id w.tick) (env.now_ms w.tick) input w.db) refl)
    ]
  ]
    where
      answered :
          (r : Result (EventRow × Db))
          → append_tx (env.new_id w.tick) (env.now_ms w.tick) input w.db ≡ r
          → ((e : Error) × (committed r (next w) ≡ (err e, next w)))
            ⊎ ((row : EventRow) × (committed r (next w)
                  ≡ (ok row, set_db (appended row w.db) (next w)))
                × Appends input w row)
      answered (err e) h = inl (e, refl)
      answered (ok (row, db)) h =
          let (s, found, session, number, left) =
            append_tx-ok (env.new_id w.tick) (env.now_ms w.tick) input w.db db row h in
          inr (
            row,
            rw left refl,
            record { owner = s; found = found; session = session; number = number },
          )
