-- ===== src/Store/Settled.antt =====
-- A session whose status says that no turn is running, and the calls that keep it so.
use jadeenvoy.Broker.{dispatch, publish}
use jadeenvoy.Errors.{Result, err, not_found, ok}
use jadeenvoy.Json.{Raw}
use jadeenvoy.Prelude.{
  Bool, List, Option, String, false, if◌then◌else◌, inl, inr, none, refl, some, str_eq, true, ℕ,
  ◌+◌, ◌≡◌, str_eq_refl,
}
use jadeenvoy.Rows.{
  EventType, SessionRow, Status, find_session, idle, requires_action, rescheduling, running,
  terminated, update_session,
}
use jadeenvoy.Store.Event.{AppendEventInput, append_event}
use jadeenvoy.Store.Log.Outcome.{append_event-cases}
use jadeenvoy.Store.Log.Tables.{find-update, on_row}
use jadeenvoy.Store.Session.{
  get_session, or_not_found, update_row, update_session_status, mark_session_terminated,
}
use jadeenvoy.Stream.{live}
use jadeenvoy.World.{Ctx, Env, M, World, continue, db_call, ignore, is_done, ◌>>=◌}
use jadeenvoy.World.Keeps.{
  Keeps, Keeps-bind, Keeps-db_call, Keeps-fail, Keeps-gets, Keeps-modify, Keeps-pure,
}

abbrev pub is_settled : Status → Bool
is_settled idle = true
is_settled terminated = true
is_settled requires_action = true
is_settled running = false
is_settled rescheduling = false

abbrev SettledRow : Option SessionRow → Type 0
SettledRow none = Unit
SettledRow (some r) = is_settled r.status ≡ true

-- The row of the session, where there is one, is settled.
abbrev pub Settled : String → World → Type 0
Settled id w = SettledRow (find_session id w.db.sessions)

-- Whatever happens, `P` holds afterwards.
pub record Always {A : Type 0} (P : World → Type 0) (m : M A) : Type 0 where
  pub at : (w : World) → P (m w).1

pub Always-if :
    {A : Type 0} {P : World → Type 0} (b : Bool) (m n : M A)
    → Always P m
    → Always P n
    → Always P (if b then m else n)
Always-if true m n x y = x
Always-if false m n x y = y

module _ {A B : Type 0} {P : World → Type 0} where
  pub Always-bind :
      (m : M A) (f : A → M B) → Always P m → ((a : A) → Keeps P (f a)) → Always P (m >>= f)
  unfolding ◌>>=◌
  Always-bind m f am kf = record { at = λ w. after (m w).0 (m w).1 (am.at w) }
    where
      after : (r : Result A) (w : World) → P w → P (continue r f w).1
      after (ok a) w p = (kf a).at w p
      after (err e) w p = p

module _ (id : String) where
  db_call-Settled : (env : Env) (ctx : Ctx) → Keeps (Settled id) (db_call env ctx)
  db_call-Settled env ctx = Keeps-db_call env ctx (λ w h. h)

  updated-Settled :
      (j : String) (f : SessionRow → SessionRow) (rows : List SessionRow)
      → ((r : SessionRow) → (f r).id ≡ r.id)
      → ((r : SessionRow) → (f r).status ≡ r.status)
      → SettledRow (find_session id rows)
      → SettledRow (find_session id (update_session j f rows))
  updated-Settled j f rows ids same h =
      rw (find-update id j f rows ids) (kept (find_session id rows) (str_eq j id) h)
    where
      kept :
          (o : Option SessionRow) (b : Bool)
          → SettledRow o
          → SettledRow (if b then on_row f o else o)
      kept o false h = h
      kept none true h = tt
      kept (some r) true h = rw (same r) h

  set_rows :
      (f : SessionRow → SessionRow) (rows : List SessionRow)
      → ((r : SessionRow) → (f r).id ≡ r.id)
      → ((r : SessionRow) → is_settled (f r).status ≡ true)
      → SettledRow (find_session id (update_session id f rows))
  set_rows f rows ids good =
      rw (find-update id id f rows ids, str_eq_refl id) (put (find_session id rows))
    where
      put : (o : Option SessionRow) → SettledRow (on_row f o)
      put none = tt
      put (some r) = good r

  module _ (env : Env) (ctx : Ctx) where
    pub append_event-Settled :
        (input : AppendEventInput) → Keeps (Settled id) (append_event env ctx input)
    append_event-Settled input = record {
      at = λ w h. elim (append_event-cases env ctx input w) [
        | inl (e, same) ↦ rw same h
        | inr (row, same, a) ↦ rw same (
            updated-Settled row.session_id (λ r. record r { next_seq = r.next_seq + 1 })
              w.db.sessions (λ r. refl) (λ r. refl) h)
      ];
    }

    pub publish-Settled :
        (session : String) (type : EventType) (thread : String) (payload : Raw)
        → Keeps (Settled id) (publish env ctx session type thread payload)
    unfolding publish dispatch
    publish-Settled session type thread payload = Keeps-bind _ _ (append_event-Settled _) (λ row.
        Keeps-bind _ _ (Keeps-modify _ (λ w h. h))
          (λ u. Keeps-bind _ _ (Keeps-modify _ (λ w h. h)) (λ v. Keeps-pure _)))

    pub get_session-Settled : (j : String) → Keeps (Settled id) (get_session env ctx j)
    unfolding get_session or_not_found
    get_session-Settled j =
        Keeps-bind _ _ (db_call-Settled env ctx) (λ u. Keeps-bind _ _ (Keeps-gets _) found)
      where
        found : (o : Option SessionRow) → Keeps (Settled id) (or_not_found o)
        found none = Keeps-fail not_found
        found (some r) = Keeps-pure r

    -- With a database that answers, the status is what it is set to.
    pub update_session_status-Settled :
        (s : Status)
        → is_settled s ≡ true
        → ((n : ℕ) → env.db_fault n ≡ false)
        → ((n : ℕ) → is_done env ctx n ≡ false)
        → Always (Settled id) (ignore (update_session_status env ctx id s))
    unfolding update_session_status update_row ◌>>=◌
    update_session_status-Settled s settled sound live = record {
      at = λ w.
          rw (live w.tick, sound w.tick)
            (set_rows (λ r. record r { status = s; updated_at = env.now_ms w.tick }) w.db.sessions
              (λ r. refl) (λ r. settled));
    }

    pub mark_session_terminated-Settled :
        ((n : ℕ) → env.db_fault n ≡ false)
        → ((n : ℕ) → is_done env ctx n ≡ false)
        → Always (Settled id) (ignore (mark_session_terminated env ctx id))
    unfolding mark_session_terminated update_row ◌>>=◌
    mark_session_terminated-Settled sound live = record {
      at = λ w.
          rw (live w.tick, sound w.tick)
            (set_rows
              (λ r. record r {
                status = terminated;
                terminated_at = some (env.now_ms w.tick);
                updated_at = env.now_ms w.tick;
              })
              w.db.sessions (λ r. refl) (λ r. refl));
    }
