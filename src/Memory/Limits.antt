-- ===== src/Memory/Limits.antt =====
-- Sequences of requests to internal/memory/service.go against the limits of its checks.
use jadeenvoy.Memory.Requests.{
  delete_row-IsBounded, get_memory-IsBounded, get_memory_store-IsBounded,
  get_memory_version-IsBounded, update_row_of-IsBounded, upsert_row-IsBounded,
}
use jadeenvoy.Memory.Rows.{MemoryDb}
use jadeenvoy.Memory.Service.{
  UpdateMemoryRequest, UpsertMemoryRequest, is_absolute, max_memory_size,
}
use jadeenvoy.Prelude.{
  ℕ, Bool-cases, List, String, [], arith, inl, inr, len, ltb, not, str_eq, ◌&&◌, ◌∷◌,
}
use jadeenvoy.Action.{Outside, State, Act, ◌>>=◌, pure}
use jadeenvoy.Action.Keeps.{
  Keeps, keep_rules, Keeps-bind, Keeps-each, Keeps-exec, Keeps-fail, Keeps-pure,
}
use jadeenvoy.Memory.Table
use jadeenvoy.Memory.Service
use jadeenvoy.Memory.Bounds.{
  IsBounded, archive_store_row-IsBounded, delete_store_row-IsBounded, insert_store-IsBounded,
  redact_version_row-IsBounded, rename_store-IsBounded,
}

-- A request with its arguments.
pub data MemoryRequest : Type 0 where
  ask_create_store : String → String → String → MemoryRequest
  ask_get_store ask_delete_store ask_archive_store : String → MemoryRequest
  ask_list_stores : String → ℕ → MemoryRequest
  ask_update_store : String → String → String → MemoryRequest
  ask_upsert : String → String → UpsertMemoryRequest → MemoryRequest
  ask_get ask_delete ask_get_version ask_redact : String → MemoryRequest
  ask_list ask_list_versions : String → String → ℕ → MemoryRequest
  ask_update : String → UpdateMemoryRequest → MemoryRequest

abbrev answered : {S A : Type 0} → Act S A → Act S (Unit {0})
answered m = m >>= λ _. pure tt

module _ (env : Outside) (sha256_hex : String → String) where
  unfoldable pub handle : MemoryRequest → Act MemoryDb (Unit {0})
  handle (ask_create_store t n d) = answered (Service.create_store env sha256_hex t n d)
  handle (ask_get_store id) = answered (Service.get_store env sha256_hex id)
  handle (ask_delete_store id) = Service.delete_store env sha256_hex id
  handle (ask_archive_store id) = answered (Service.archive_store env sha256_hex id)
  handle (ask_list_stores t n) = answered (Service.list_stores env sha256_hex t n)
  handle (ask_update_store id n d) = answered (Service.update_store env sha256_hex id n d)
  handle (ask_upsert t s r) = answered (Service.upsert_memory env sha256_hex t s r)
  handle (ask_get id) = answered (Service.get_memory env sha256_hex id)
  handle (ask_delete id) = Service.delete_memory env sha256_hex id
  handle (ask_get_version id) = answered (Service.get_memory_version env sha256_hex id)
  handle (ask_redact id) = answered (Service.redact_memory_version env sha256_hex id)
  handle (ask_list s p n) = answered (Service.list_memories env sha256_hex s p n)
  handle (ask_list_versions s m n) = answered (Service.list_memory_versions env sha256_hex s m n)
  handle (ask_update id r) = answered (Service.update_memory env sha256_hex id r)

  unfoldable pub handle_all : List MemoryRequest → State MemoryDb → State MemoryDb
  handle_all [] w = w
  handle_all (r ∷ rs) w = handle_all rs (handle r w).1

  upsert-IsBounded :
      (t s : String) (r : UpsertMemoryRequest)
      → Keeps IsBounded (Service.upsert_memory env sha256_hex t s r)
  unfolding Service.upsert_memory
  upsert-IsBounded t s r = elim (Bool-cases (str_eq r.path "")) [
    | inl empty ↦ rw empty (Keeps-fail _)
    | inr given ↦ elim (Bool-cases (is_absolute r.path)) [
      | inr relative ↦ rw (given, relative) (Keeps-fail _)
      | inl absolute ↦ elim (Bool-cases (ltb max_memory_size (len r.content))) [
        | inl long ↦ rw (given, absolute, long) (Keeps-fail _)
        | inr fits ↦
            rw (given, absolute, fits)
              (Keeps-bind _ _ (upsert_row-IsBounded env sha256_hex _ absolute (ground arith))
                (λ m. Keeps-pure _))
      ]
    ]
  ]

  update-IsBounded :
      (id : String) (r : UpdateMemoryRequest)
      → Keeps IsBounded (Service.update_memory env sha256_hex id r)
  unfolding Service.update_memory
  update-IsBounded id r = elim (Bool-cases (not (str_eq r.path "") && not (is_absolute r.path))) [
    | inl relative ↦ rw relative (Keeps-fail _)
    | inr absolute ↦ elim (Bool-cases (Service.too_long r.content)) [
      | inl long ↦ rw (absolute, long) (Keeps-fail _)
      | inr fits ↦
          rw (absolute, fits)
            (Keeps-bind _ _ (update_row_of-IsBounded env sha256_hex _ absolute fits)
              (λ m. Keeps-pure _))
    ]
  ]

  handle-IsBounded : (r : MemoryRequest) → Keeps IsBounded (handle r)
  unfolding handle Service.create_store Service.get_store Service.delete_store Service.archive_store
      Service.list_stores Service.update_store Service.get_memory Service.delete_memory
      Service.get_memory_version Service.redact_memory_version Service.list_memories
      Service.list_memory_versions Table.create_memory_store Table.delete_memory_store
      Table.archive_memory_store Table.list_memory_stores Table.update_memory_store
      Table.redact_memory_version Table.list_memories Table.list_memory_versions
  handle-IsBounded (ask_create_store t n d) =
      search (keep_rules, Keeps-exec, insert_store-IsBounded, get_memory_store-IsBounded) depth 9
  handle-IsBounded (ask_get_store id) = search (keep_rules, get_memory_store-IsBounded) depth 9
  handle-IsBounded (ask_delete_store id) = search (Keeps-exec, delete_store_row-IsBounded) depth 9
  handle-IsBounded (ask_archive_store id) =
      search (keep_rules, Keeps-exec, archive_store_row-IsBounded, get_memory_store-IsBounded) depth
        9
  handle-IsBounded (ask_list_stores t n) =
      search (keep_rules, Keeps-each, get_memory_store-IsBounded) depth 9
  handle-IsBounded (ask_update_store id n d) =
      search (keep_rules, Keeps-exec, rename_store-IsBounded, get_memory_store-IsBounded) depth 9
  handle-IsBounded (ask_upsert t s r) = search (keep_rules, upsert-IsBounded) depth 9
  handle-IsBounded (ask_get id) = search (keep_rules, get_memory-IsBounded) depth 9
  handle-IsBounded (ask_delete id) = delete_row-IsBounded env sha256_hex id
  handle-IsBounded (ask_get_version id) = search (keep_rules, get_memory_version-IsBounded) depth 9
  handle-IsBounded (ask_redact id) =
      search (keep_rules, Keeps-exec, redact_version_row-IsBounded, get_memory_version-IsBounded)
        depth 9
  handle-IsBounded (ask_list s p n) = search (keep_rules, Keeps-each, get_memory-IsBounded) depth 9
  handle-IsBounded (ask_list_versions s m n) =
      search (keep_rules, Keeps-each, get_memory_version-IsBounded) depth 9
  handle-IsBounded (ask_update id r) = search (keep_rules, update-IsBounded) depth 9

  -- Whatever requests come, in whatever order and with whatever faults of the database: every
  -- memory has an absolute path and a content of at most MaxMemorySize bytes.
  pub handle_all-IsBounded :
      (rs : List MemoryRequest) (w : State MemoryDb)
      → IsBounded w.db
      → IsBounded (handle_all rs w).db
  unfolding handle_all
  handle_all-IsBounded [] w h = h
  handle_all-IsBounded (r ∷ rs) w h = handle_all-IsBounded rs _ ((handle-IsBounded r).at w h)
