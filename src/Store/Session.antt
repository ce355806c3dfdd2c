-- ===== src/Store/Session.antt =====
-- internal/store/session.go
use jadeenvoy.Prelude.{
  ℕ, ◌+◌, String, Bool, true, false, Option, none, some, List, [], ◌∷◌, ◌++◌, map, ◌&&◌, ◌||◌, not,
  str_eq, leb, ltb, ◌==◌, if◌then◌else◌, select, some_of, sort_by, take,
}
use jadeenvoy.Json.{Value, Raw, Items, nil, cons, str, obj, end, arr, null}
use jadeenvoy.Errors.{ok, err, not_found, constraint}
use jadeenvoy.Rows.{
  Status, idle, running, rescheduling, terminated, requires_action, SessionRow, find_session,
  update_session,
}
use jadeenvoy.World.{Env, World, M, Ctx, ◌>>=◌, ◌>>◌, pure, fail, gets, db_call, set_db}

pub record CreateSessionInput : Type 0 where
  pub tenant_id : String
  pub agent_id : String
  pub agent_version : ℕ
  pub agent_snapshot : Value
  pub environment_id : String
  pub title : String
  pub vault_ids : List String
  pub metadata : Raw

-- nullStr
abbrev null_str : String → Option String
null_str s = if str_eq s "" then none else some s

abbrev or_default : String → String → String
or_default s d = if str_eq s "" then d else s

-- json.Marshal of a []string; a nil slice gives `null`
abbrev string_items : List String → Items
string_items [] = nil
string_items (s ∷ ss) = cons (str s) (string_items ss)

abbrev string_array : List String → Value
string_array [] = null
string_array (s ∷ ss) = arr (string_items (s ∷ ss))

abbrev or_object : Raw → Value
or_object none = obj end
or_object (some v) = v

-- The row that INSERT INTO session writes.
unfoldable pub new_session : String → ℕ → CreateSessionInput → SessionRow
new_session id now input = record {
  id = id;
  tenant_id = or_default input.tenant_id "tnt-default";
  agent_id = input.agent_id;
  agent_version = input.agent_version;
  agent_snapshot = input.agent_snapshot;
  environment_id = or_default input.environment_id "default";
  status = idle;
  title = null_str input.title;
  metadata = or_object input.metadata;
  vault_ids = string_array input.vault_ids;
  created_at = now;
  updated_at = now;
  archived_at = none;
  terminated_at = none;
  next_seq = 1;
  usage_input = 0;
  usage_output = 0;
  usage_cache_create = 0;
  usage_cache_read = 0;
}

abbrev pub set_sessions : List SessionRow → World → World
set_sessions rows w = set_db (record (w.db) { sessions = rows }) w

-- UPDATE session SET … WHERE id = ?
unfoldable pub update_row : String → (SessionRow → SessionRow) → M (Unit {0})
update_row id f w = (ok tt, set_sessions (update_session id f w.db.sessions) w)

-- … AND archived_at IS NULL, with RowsAffected
abbrev pub is_active : String → SessionRow → Bool
is_active id r = str_eq r.id id && elim r.archived_at [ none ↦ true | some _ ↦ false ]

unfoldable pub update_active : String → (SessionRow → SessionRow) → M (Unit {0})
update_active id f w =
    if some_of (is_active id) w.db.sessions
    then (ok tt, set_sessions (map (λ r. if is_active id r then f r else r) w.db.sessions) w)
    else (err not_found, w)

unfoldable pub or_not_found : {A : Type 0} → Option A → M A
or_not_found none = fail not_found
or_not_found (some a) = pure a

abbrev page_limit : ℕ → ℕ
page_limit limit = if limit == 0 || ltb 1000 limit then 50 else limit

abbrev is_listed : String → SessionRow → Bool
is_listed tenant r =
    str_eq r.tenant_id tenant && elim r.archived_at [ none ↦ true | some _ ↦ false ]

abbrev same_status : Status → Status → Bool
same_status idle idle = true
same_status running running = true
same_status rescheduling rescheduling = true
same_status terminated terminated = true
same_status requires_action requires_action = true
same_status _ _ = false

-- The primary key refuses an id that is taken.
unfoldable pub insert_session : SessionRow → M (Unit {0})
insert_session row w = elim (find_session row.id w.db.sessions) [
  | none ↦ (ok tt, set_sessions (w.db.sessions ++ row ∷ []) w)
  | some _ ↦ (err constraint, w)
]

-- ON DELETE CASCADE takes the session's events along.
unfoldable pub delete_row : String → M (Unit {0})
delete_row id w = elim (find_session id w.db.sessions) [
  | none ↦ (err not_found, w)
  | some _ ↦ (
    ok tt,
    set_db
        (record {
          sessions = select (λ r. not (str_eq r.id id)) w.db.sessions;
          events = select (λ e. not (str_eq e.session_id id)) w.db.events;
        })
        w,
  )
]

module _ (env : Env) (ctx : Ctx) where
  unfoldable pub get_session : String → M SessionRow
  get_session id = do
    db_call env ctx
    found ← gets (λ w. find_session id w.db.sessions)
    or_not_found found

  unfoldable pub create_session : CreateSessionInput → M SessionRow
  create_session input = do
    n ← gets (λ w. w.tick)
    let row = new_session (env.new_id n) (env.now_ms n) input
    db_call env ctx
    insert_session row
    get_session row.id

  unfoldable pub update_session_status : String → Status → M (Unit {0})
  update_session_status id status = do
    n ← gets (λ w. w.tick)
    db_call env ctx
    update_row id (λ r. record r { status = status; updated_at = env.now_ms n })

  unfoldable pub mark_session_terminated : String → M (Unit {0})
  mark_session_terminated id = do
    n ← gets (λ w. w.tick)
    db_call env ctx
    update_row id (λ r. record r {
      status = terminated;
      terminated_at = some (env.now_ms n);
      updated_at = env.now_ms n;
    })

  unfoldable pub update_session_usage : String → ℕ → ℕ → ℕ → ℕ → M (Unit {0})
  update_session_usage id input output cache_create cache_read = do
    db_call env ctx
    update_row id (λ r. record r {
      usage_input = r.usage_input + input;
      usage_output = r.usage_output + output;
      usage_cache_create = r.usage_cache_create + cache_create;
      usage_cache_read = r.usage_cache_read + cache_read;
    })

  unfoldable pub update_session_fields : String → String → Raw → List String → M SessionRow
  update_session_fields id title metadata vault_ids = do
    n ← gets (λ w. w.tick)
    db_call env ctx
    update_active id (λ r. record r {
      title = null_str title;
      metadata = or_object metadata;
      vault_ids = string_array vault_ids;
      updated_at = env.now_ms n;
    })
    get_session id

  unfoldable pub archive_session : String → M (Unit {0})
  archive_session id = do
    n ← gets (λ w. w.tick)
    db_call env ctx
    update_active id
        (λ r. record r { archived_at = some (env.now_ms n); updated_at = env.now_ms n })

  unfoldable pub delete_session : String → M (Unit {0})
  delete_session id = do db_call env ctx; delete_row id

  -- A query for ids, and one for each row.
  unfoldable pub get_all : List String → M (List SessionRow)
  get_all [] = pure []
  get_all (id ∷ ids) = get_session id >>= (λ r. get_all ids >>= (λ rs. pure (r ∷ rs)))

  unfoldable pub list_sessions : String → ℕ → M (List SessionRow)
  list_sessions tenant limit = do
    db_call env ctx
    ids ← gets (λ w.
        map (λ r. r.id)
          (take (page_limit limit) (
            sort_by (λ a b. leb b.created_at a.created_at)
              (select (is_listed tenant) w.db.sessions))))
    get_all ids

  unfoldable pub list_sessions_by_status : List Status → M (List String)
  list_sessions_by_status [] = pure []
  list_sessions_by_status (s ∷ ss) = do
    db_call env ctx
    gets
        (λ w. map (λ r. r.id) (select (λ r. some_of (same_status r.status) (s ∷ ss)) w.db.sessions))
