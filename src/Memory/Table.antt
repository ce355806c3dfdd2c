-- ===== src/Memory/Table.antt =====
-- internal/store/memory.go, each function as an operation on the tables.
use jadeenvoy.Prelude.{
  ℕ, String, Bool, true, false, List, ◌&&◌, ◌||◌, Option, none, some, str_eq, str_leb, leb, ltb,
  ◌==◌, len, ◌<>◌, select, first, take, sort_by, if◌then◌else◌,
}
use jadeenvoy.Action.{
  Outside, Act, at_tick, or_not_found, ◌>>=◌, ◌>>◌, exec, query, each, some_affected,
}
use jadeenvoy.Memory.Rows.{
  MemoryStoreRow, MemoryRow, MemoryVersionRow, MemoryDb, CreateMemoryStoreInput, CreateMemoryInput,
  UpdateMemoryInput, MemoryVersionInput, Operation, created, modified, deleted,
}
use jadeenvoy.Memory.Statements.{
  find_store, find_memory, find_version, is_at, insert_store, rename_store, archive_store_row,
  delete_store_row, insert_memory, update_memory_row, delete_memory_row, insert_version_row,
  redact_version_row,
}
use jadeenvoy.Memory.Like.{like}

abbrev pub tenant_or_default : String → String
tenant_or_default t = if str_eq t "" then "tnt-default" else t

-- limit <= 0 || limit > 1000
abbrev pub limit_or : ℕ → ℕ → ℕ
limit_or d n = if n == 0 || ltb 1000 n then d else n

abbrev pub null_str : String → Option String
null_str s = if str_eq s "" then none else some s

-- ORDER BY created_at DESC
abbrev newest_version : MemoryVersionRow → MemoryVersionRow → Bool
newest_version a b = leb b.created_at a.created_at

abbrev newest_store : MemoryStoreRow → MemoryStoreRow → Bool
newest_store a b = leb b.created_at a.created_at

abbrev by_path : MemoryRow → MemoryRow → Bool
by_path a b = str_leb a.path b.path

abbrev lists_store : String → MemoryStoreRow → Bool
lists_store tenant s =
    str_eq s.tenant_id tenant && elim s.archived_at [ none ↦ true | some t ↦ false ]

abbrev pub lists_memory : String → String → MemoryRow → Bool
lists_memory store prefix m =
    str_eq m.memory_store_id store && (str_eq prefix "" || like (prefix <> "%") m.path)

abbrev lists_version : String → String → MemoryVersionRow → Bool
lists_version store memory v =
    str_eq v.memory_store_id store && (str_eq memory "" || str_eq v.memory_id memory)

unfoldable pub new_store : String → ℕ → CreateMemoryStoreInput → MemoryStoreRow
new_store id now input = record {
  id = id;
  tenant_id = tenant_or_default input.tenant_id;
  name = input.name;
  description = null_str input.description;
  archived_at = none;
  created_at = now;
  updated_at = now;
}

abbrev pub path_or : String → String → String
path_or p q = if str_eq p "" then q else p

abbrev pub content_or : Option String → String → String
content_or none d = d
content_or (some s) d = s

unfoldable pub new_version : String → ℕ → MemoryVersionInput → MemoryVersionRow
new_version id now input = record {
  id = id;
  memory_store_id = input.memory_store_id;
  memory_id = input.memory_id;
  tenant_id = tenant_or_default input.tenant_id;
  operation = input.operation;
  path = some input.path;
  content = some input.content;
  content_sha256 = some input.content_sha256;
  content_size = some input.content_size;
  created_at = if input.created_at_ms == 0 then now else input.created_at_ms;
  redacted_at = none;
}

-- The version that says what a row of `memory` holds.
abbrev pub version_of : Operation → ℕ → MemoryRow → MemoryVersionInput
version_of op now m = record {
  memory_store_id = m.memory_store_id;
  memory_id = m.id;
  tenant_id = m.tenant_id;
  operation = op;
  path = m.path;
  content = m.content;
  content_sha256 = m.content_sha256;
  content_size = m.content_size;
  created_at_ms = now;
}

-- The last argument of the section is sha256Hex.
module _ (env : Outside) (sha256_hex : String → String) where
  unfoldable pub new_memory : String → ℕ → CreateMemoryInput → MemoryRow
  new_memory id now input = record {
    id = id;
    memory_store_id = input.memory_store_id;
    tenant_id = tenant_or_default input.tenant_id;
    path = input.path;
    content = input.content;
    content_sha256 = sha256_hex input.content;
    content_size = len input.content;
    created_at = now;
    updated_at = now;
  }

  unfoldable pub get_memory_store : String → Act MemoryDb MemoryStoreRow
  get_memory_store id = do r ← query env (λ db. find_store id db.stores); or_not_found r

  unfoldable pub create_memory_store : CreateMemoryStoreInput → Act MemoryDb MemoryStoreRow
  create_memory_store input = do
    row ← at_tick (λ n. new_store (env.new_id "mst" n) (env.now_ms n) input)
    exec env (insert_store row)
    get_memory_store row.id

  unfoldable pub list_memory_stores : String → ℕ → Act MemoryDb (List MemoryStoreRow)
  list_memory_stores tenant limit = do
    rows ← query env (λ db.
        take (limit_or 50 limit) (sort_by newest_store (select (lists_store tenant) db.stores)))
    each (λ r. get_memory_store r.id) rows

  unfoldable pub delete_memory_store : String → Act MemoryDb (Unit {0})
  delete_memory_store id = exec env (delete_store_row id)

  unfoldable pub update_memory_store : String → String → String → Act MemoryDb MemoryStoreRow
  update_memory_store id name description = do
    now ← at_tick env.now_ms
    n ← exec env (rename_store id name (null_str description) now)
    some_affected n
    get_memory_store id

  unfoldable pub archive_memory_store : String → Act MemoryDb MemoryStoreRow
  archive_memory_store id = do
    now ← at_tick env.now_ms
    n ← exec env (archive_store_row id now)
    some_affected n
    get_memory_store id

  unfoldable pub get_memory : String → Act MemoryDb MemoryRow
  get_memory id = do r ← query env (λ db. find_memory id db.memories); or_not_found r

  unfoldable pub insert_memory_version : MemoryVersionInput → Act MemoryDb (Unit {0})
  insert_memory_version input = do
    row ← at_tick (λ n. new_version (env.new_id "mver" n) (env.now_ms n) input)
    exec env (insert_version_row row)

  unfoldable pub create_memory : CreateMemoryInput → Act MemoryDb MemoryRow
  create_memory input = do
    row ← at_tick (λ n. new_memory (env.new_id "mem" n) (env.now_ms n) input)
    exec env (insert_memory row)
    insert_memory_version (version_of created row.created_at row)
    get_memory row.id

  -- UPDATE … WHERE id = ?, the row read again, and the version.
  unfoldable pub overwrite : String → CreateMemoryInput → ℕ → Act MemoryDb MemoryRow
  overwrite existing input now = do
    exec env (
        update_memory_row existing (λ m. m.path) input.content (sha256_hex input.content)
          (len input.content) now)
    before ← get_memory existing
    insert_memory_version (record (version_of modified now before) {
      content = input.content;
      content_sha256 = sha256_hex input.content;
      content_size = len input.content;
    })
    get_memory existing

  unfoldable pub upsert_memory : CreateMemoryInput → Act MemoryDb MemoryRow
  upsert_memory input = do
    now ← at_tick env.now_ms
    found ← query env (λ db. first (is_at input.memory_store_id input.path) db.memories)
    elim found [ none ↦ create_memory input | some m ↦ overwrite m.id input now ]

  unfoldable pub update_memory : UpdateMemoryInput → Act MemoryDb MemoryRow
  update_memory input = do
    current ← get_memory input.id
    now ← at_tick env.now_ms
    let path = path_or input.path current.path
    let content = content_or input.content current.content
    exec env (update_memory_row input.id (λ m. path) content (sha256_hex content) (len content) now)
    insert_memory_version (record (version_of modified now current) {
      path = path;
      content = content;
      content_sha256 = sha256_hex content;
      content_size = len content;
    })
    get_memory input.id

  unfoldable pub list_memories : String → String → ℕ → Act MemoryDb (List MemoryRow)
  list_memories store prefix limit = do
    rows ← query env (λ db.
        take (limit_or 100 limit)
          (sort_by by_path (select (lists_memory store prefix) db.memories)))
    each (λ r. get_memory r.id) rows

  unfoldable pub delete_memory : String → Act MemoryDb (Unit {0})
  delete_memory id = do
    current ← get_memory id
    now ← at_tick env.now_ms
    insert_memory_version (version_of deleted now current)
    exec env (delete_memory_row id)

  unfoldable pub get_memory_version : String → Act MemoryDb MemoryVersionRow
  get_memory_version id = do r ← query env (λ db. find_version id db.versions); or_not_found r

  unfoldable pub list_memory_versions : String → String → ℕ → Act MemoryDb (List MemoryVersionRow)
  list_memory_versions store memory limit = do
    rows ← query env (λ db.
        take (limit_or 100 limit)
          (sort_by newest_version (select (lists_version store memory) db.versions)))
    each (λ v. get_memory_version v.id) rows

  unfoldable pub redact_memory_version : String → Act MemoryDb MemoryVersionRow
  redact_memory_version id = do
    now ← at_tick env.now_ms
    exec env (redact_version_row id now)
    get_memory_version id
