-- ===== src/Store/Log/Keeps.antt =====
-- The calls of internal/store/session.go and internal/store/event.go on a numbered log.
use jadeenvoy.Json.{Raw}
use jadeenvoy.Store.Session.{
  or_not_found, update_session_status, mark_session_terminated, update_session_usage, update_row,
  get_session, insert_session, delete_session, update_active, update_session_fields, delete_row,
  create_session, archive_session, new_session, is_active, CreateSessionInput,
}
use jadeenvoy.Prelude.{
  ℕ, String, ◌≡◌, refl, Bool, true, false, Option, none, some, List, [], ◌∷◌, ◌++◌, arith, str_eq,
  str_eq_iff, if◌then◌else◌, Bool-cases, Option-cases, inl, inr, map, sym, some_of, subst, sort_by,
}
use jadeenvoy.Rows.{EventRow, SessionRow, Db, Status, find_session, update_session, events_of}
use jadeenvoy.World.{Env, World, Ctx, ◌>>=◌, db_call}
use jadeenvoy.World.Keeps.{
  Keeps, Keeps-pure, Keeps-fail, Keeps-lift, Keeps-gets, Keeps-ignore, Keeps-if, Keeps-db_call,
  Keeps-bind,
}
use jadeenvoy.Store.Event.{
  AppendEventInput, append_event, append_tx, commit_tx, list_events, committed, by_seq, of_types,
}
use jadeenvoy.Errors.{Result, ok, err}
use jadeenvoy.Store.Log.{Accounts, IsLog}
use jadeenvoy.Store.Log.Tables.{
  find-update, on_row, or_row, find-remove, find-map, events_of-remove, find-append, sort_of_types,
}
use jadeenvoy.Store.Log.Append.{append_tx-ok, appended-IsLog}

abbrev pub HasLog : World → Type 0
HasLog w = IsLog w.db

-- An update that leaves the id and next_seq alone.
update-IsLog :
    (j : String) (f : SessionRow → SessionRow) (db : Db)
    → ((r : SessionRow) → (f r).id ≡ r.id)
    → ((r : SessionRow) → (f r).next_seq ≡ r.next_seq)
    → IsLog db
    → IsLog (record db { sessions = update_session j f db.sessions })
update-IsLog j f db ids seqs log = record {
  at = λ id.
      rw (find-update id j f db.sessions ids)
        (kept (find_session id db.sessions) (events_of id db.events) (str_eq j id) (log.at id));
}
  where
    kept :
        (o : Option SessionRow) (es : List EventRow) (b : Bool)
        → Accounts o es
        → Accounts (if b then on_row f o else o) es
    kept o es false a = a
    kept none es true a = a
    kept (some r) es true a = rw (seqs r) a

ruleset action_rules =
    (Keeps-pure, Keeps-fail, Keeps-lift, Keeps-gets, Keeps-ignore, Keeps-if, Keeps-bind)

db_call-HasLog : (env : Env) (ctx : Ctx) → Keeps HasLog (db_call env ctx)
db_call-HasLog env ctx = Keeps-db_call env ctx (λ w h. h)

commit_tx-HasLog :
    (id : String) (now : ℕ) (input : AppendEventInput) → Keeps HasLog (commit_tx id now input)
unfolding commit_tx
commit_tx-HasLog id now input = record {
  at = λ w log. kept w log (append_tx id now input w.db) refl;
}
  where
    kept :
        (w : World)
        → IsLog w.db
        → (r : Result (EventRow × Db)) → append_tx id now input w.db ≡ r
        → IsLog (committed r w).1.db
    kept w log (err e) h = log
    kept w log (ok (e, db)) h =
        let (s, found, same, at, left) = append_tx-ok id now input w.db db e h in
        subst IsLog (sym left) (
          appended-IsLog e s w.db
            (subst (λ (x : String). find_session x w.db.sessions ≡ some s) (sym same) found) at log)

pub append_event-HasLog :
    (env : Env) (ctx : Ctx) (input : AppendEventInput) → Keeps HasLog (append_event env ctx input)
unfolding append_event
append_event-HasLog env ctx input = search (action_rules, db_call-HasLog, commit_tx-HasLog)

update_row-HasLog :
    (id : String) (f : SessionRow → SessionRow)
    → ((r : SessionRow) → (f r).id ≡ r.id)
    → ((r : SessionRow) → (f r).next_seq ≡ r.next_seq)
    → Keeps HasLog (update_row id f)
unfolding update_row
update_row-HasLog id f ids seqs = record { at = λ w log. update-IsLog id f w.db ids seqs log }

or_not_found-HasLog : {A : Type 0} (o : Option A) → Keeps HasLog (or_not_found o)
unfolding or_not_found
or_not_found-HasLog none = search action_rules
or_not_found-HasLog (some a) = search action_rules

update_active-HasLog :
    (id : String) (f : SessionRow → SessionRow)
    → ((r : SessionRow) → (f r).id ≡ r.id)
    → ((r : SessionRow) → (f r).next_seq ≡ r.next_seq)
    → Keeps HasLog (update_active id f)
unfolding update_active
update_active-HasLog id f ids seqs = record {
  at = λ w log. elim (Bool-cases (some_of (is_active id) w.db.sessions)) [
    | inl some_row ↦ rw some_row (changed w log)
    | inr no_row ↦ rw no_row log
  ];
}
  where
    g : SessionRow → SessionRow
    g r = if is_active id r then f r else r

    kept : (o : Option SessionRow) (es : List EventRow) → Accounts o es → Accounts (on_row g o) es
    kept none es a = a
    kept (some r) es a = ground (arith, seqs r, a)

    changed : (w : World) → IsLog w.db → IsLog (record (w.db) { sessions = map g w.db.sessions })
    changed w log = record {
      at = λ j.
          rw (find-map j g w.db.sessions (λ r. ground (arith, ids r)))
            (kept (find_session j w.db.sessions) (events_of j w.db.events) (log.at j));
    }

insert_session-HasLog : (row : SessionRow) → row.next_seq ≡ 1 → Keeps HasLog (insert_session row)
unfolding insert_session
insert_session-HasLog row one = record {
  at = λ w log. elim (Option-cases (find_session row.id w.db.sessions)) [
    | inr (r, taken) ↦ rw (taken, insert_session) log
    | inl free ↦ rw (free, insert_session) (added w log free)
  ];
}
  where
    kept :
        (o : Option SessionRow) (es : List EventRow) (j : String)
        → (str_eq row.id j ≡ true → o ≡ none)
        → Accounts o es
        → Accounts (or_row o row j) es
    kept (some r) es j free a = a
    kept none es j free a = elim (Bool-cases (str_eq row.id j)) [
      | inl same ↦ rw same (rw a (sym one))
      | inr differs ↦ rw differs a
    ]

    added :
        (w : World)
        → IsLog w.db
        → find_session row.id w.db.sessions ≡ none
        → IsLog (record (w.db) { sessions = w.db.sessions ++ row ∷ [] })
    added w log free = record {
      at = λ j. rw (find-append j w.db.sessions row) (
          kept (find_session j w.db.sessions) (events_of j w.db.events) j
            (λ same. rw (← (str_eq_iff row.id j).0 same) free) (log.at j));
    }

delete_row-HasLog : (id : String) → Keeps HasLog (delete_row id)
unfolding delete_row
delete_row-HasLog id = record {
  at = λ w log. elim (Option-cases (find_session id w.db.sessions)) [
    | inl gone ↦ rw (gone, delete_row) log
    | inr (r, there) ↦
        rw (there, delete_row)
          (record {
            at = λ j.
                rw (find-remove id j w.db.sessions, events_of-remove id j w.db.events)
                  (elim (Bool-cases (str_eq id j)) [
                    | inl same ↦ rw same refl
                    | inr differs ↦ rw differs (log.at j)
                  ]);
          })
  ];
}

ruleset store_rules = (
  action_rules, db_call-HasLog, or_not_found-HasLog, update_row-HasLog, refl, update_active-HasLog,
  insert_session-HasLog, delete_row-HasLog,
)

module _ (env : Env) (ctx : Ctx) where
  pub get_session-HasLog : (id : String) → Keeps HasLog (get_session env ctx id)
  unfolding get_session
  get_session-HasLog id = search store_rules

  pub list_events-HasLog :
      (id : String) (types : List String) → Keeps HasLog (list_events env ctx id types)
  unfolding list_events
  list_events-HasLog id types = search store_rules

  pub update_session_status-HasLog :
      (id : String) (status : Status) → Keeps HasLog (update_session_status env ctx id status)
  unfolding update_session_status
  update_session_status-HasLog id status = search store_rules

  pub mark_session_terminated-HasLog :
      (id : String) → Keeps HasLog (mark_session_terminated env ctx id)
  unfolding mark_session_terminated
  mark_session_terminated-HasLog id = search store_rules

  pub update_session_usage-HasLog :
      (id : String) (a b c d : ℕ) → Keeps HasLog (update_session_usage env ctx id a b c d)
  unfolding update_session_usage
  update_session_usage-HasLog id a b c d = search store_rules

  pub create_session-HasLog :
      (input : CreateSessionInput) → Keeps HasLog (create_session env ctx input)
  unfolding create_session new_session
  create_session-HasLog input = search (store_rules, get_session-HasLog)

  pub update_session_fields-HasLog :
      (id title : String) (metadata : Raw) (vaults : List String)
      → Keeps HasLog (update_session_fields env ctx id title metadata vaults)
  unfolding update_session_fields
  update_session_fields-HasLog id title metadata vaults = search (store_rules, get_session-HasLog)

  pub archive_session-HasLog : (id : String) → Keeps HasLog (archive_session env ctx id)
  unfolding archive_session
  archive_session-HasLog id = search store_rules

  pub delete_session-HasLog : (id : String) → Keeps HasLog (delete_session env ctx id)
  unfolding delete_session
  delete_session-HasLog id = search store_rules

  -- On a numbered log, ListEvents that succeeds returns the session's events of the types asked
  -- for (all of them without types) in the order of their insertion: its ORDER BY seq moves none.
  pub list_events_in_order :
      (id : String) (types : List String) (w : World) (es : List EventRow)
      → IsLog w.db
      → (list_events env ctx id types w).0 ≡ ok es
      → es ≡ of_types types (events_of id w.db.events)
  unfolding list_events ◌>>=◌
  list_events_in_order id types w es log h =
      let sorted : sort_by by_seq (of_types types (events_of id w.db.events))
          ≡ of_types types (events_of id w.db.events) =
        in_order (find_session id w.db.sessions) (events_of id w.db.events) (log.at id) in
      ground (arith, sorted)
    where
      in_order :
          (o : Option SessionRow) (es : List EventRow)
          → Accounts o es
          → sort_by by_seq (of_types types es) ≡ of_types types es
      in_order none es a = rw a (sort_of_types types [] 1 1 refl)
      in_order (some s) es a = sort_of_types types es 1 s.next_seq a
