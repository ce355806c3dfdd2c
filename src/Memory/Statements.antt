-- ===== src/Memory/Statements.antt =====
-- The SQL statements of internal/store/memory.go with the constraints of the schema in
-- internal/store/store.go: primary keys, UNIQUE (tenant_id, name), UNIQUE (memory_store_id, path),
-- and the references to memory_store with ON DELETE CASCADE.
use jadeenvoy.Prelude.{
  ℕ, String, Bool, true, false, List, [], ◌∷◌, ◌++◌, ◌&&◌, ◌||◌, not, Option, none, some, str_eq,
  first, some_of, select, map, if◌then◌else◌, on_id,
}
use jadeenvoy.Errors.{Result, ok, err, constraint}
use jadeenvoy.Memory.Rows.{MemoryStoreRow, MemoryRow, MemoryVersionRow, MemoryDb}

abbrev pub find_store : String → List MemoryStoreRow → Option MemoryStoreRow
find_store id = first (λ r. str_eq r.id id)

abbrev pub find_memory : String → List MemoryRow → Option MemoryRow
find_memory id = first (λ r. str_eq r.id id)

abbrev pub find_version : String → List MemoryVersionRow → Option MemoryVersionRow
find_version id = first (λ r. str_eq r.id id)

abbrev pub is_at : String → String → MemoryRow → Bool
is_at store path r = str_eq r.memory_store_id store && str_eq r.path path

abbrev pub has_store : String → MemoryDb → Bool
has_store id db = some_of (λ s. str_eq s.id id) db.stores

-- INSERT INTO memory_store
unfoldable pub insert_store : MemoryStoreRow → MemoryDb → Result (Unit {0} × MemoryDb)
insert_store r db =
    if some_of (λ s. str_eq s.id r.id || (str_eq s.tenant_id r.tenant_id && str_eq s.name r.name))
      db.stores
    then err constraint
    else ok (tt, record db { stores = db.stores ++ r ∷ [] })

-- UPDATE memory_store … WHERE id = ? AND archived_at IS NULL: the answer is whether a row was hit.
-- A name that another store of the tenant has fails.
abbrev pub is_open : String → MemoryStoreRow → Bool
is_open id s = str_eq s.id id && elim s.archived_at [ none ↦ true | some t ↦ false ]

abbrev pub update_open :
    String → (MemoryStoreRow → MemoryStoreRow) → MemoryStoreRow → MemoryStoreRow
update_open id f s = if is_open id s then f s else s

unfoldable pub rename_store :
    String → String → Option String → ℕ → MemoryDb → Result (Bool × MemoryDb)
rename_store id name description now db = elim (first (is_open id) db.stores) [
  | none ↦ ok (false, db)
  | some row ↦
      if some_of
        (λ s. not (str_eq s.id id) && str_eq s.tenant_id row.tenant_id && str_eq s.name name)
        db.stores
      then err constraint
      else ok (
        true,
        record db {
          stores =
              map
                (update_open id
                  (λ s. record s { name = name; description = description; updated_at = now }))
                db.stores;
        },
      )
]

unfoldable pub archive_store_row : String → ℕ → MemoryDb → Result (Bool × MemoryDb)
archive_store_row id now db = ok (
  some_of (is_open id) db.stores,
  record db {
    stores =
        map (update_open id (λ s. record s { archived_at = some now; updated_at = now })) db.stores;
  },
)

-- DELETE FROM memory_store, with its memories and their versions
unfoldable pub delete_store_row : String → MemoryDb → Result (Unit {0} × MemoryDb)
delete_store_row id db = ok (
  tt,
  record {
    stores = select (λ s. not (str_eq s.id id)) db.stores;
    memories = select (λ m. not (str_eq m.memory_store_id id)) db.memories;
    versions = select (λ v. not (str_eq v.memory_store_id id)) db.versions;
  },
)

-- INSERT INTO memory
unfoldable pub insert_memory : MemoryRow → MemoryDb → Result (Unit {0} × MemoryDb)
insert_memory r db =
    if some_of (λ m. str_eq m.id r.id || is_at r.memory_store_id r.path m) db.memories
      || not (has_store r.memory_store_id db)
    then err constraint
    else ok (tt, record db { memories = db.memories ++ r ∷ [] })

-- UPDATE memory SET … WHERE id = ?: the path must be free in the store of the row.
abbrev pub rewrite : String → String → String → ℕ → ℕ → MemoryRow → MemoryRow
rewrite path content sum size now m = record m {
  path = path;
  content = content;
  content_sha256 = sum;
  content_size = size;
  updated_at = now;
}

unfoldable pub update_memory_row :
    String
    → (MemoryRow → String)
    → String
    → String
    → ℕ
    → ℕ
    → MemoryDb
    → Result (Unit {0} × MemoryDb)
update_memory_row id path content sum size now db = elim (find_memory id db.memories) [
  | none ↦ ok (tt, db)
  | some row ↦
      if some_of (λ m. not (str_eq m.id id) && is_at row.memory_store_id (path row) m) db.memories
      then err constraint
      else ok (
        tt,
        record db {
          memories =
              map (on_id (λ m. m.id) id (λ m. rewrite (path m) content sum size now m)) db.memories;
        },
      )
]

-- DELETE FROM memory
unfoldable pub delete_memory_row : String → MemoryDb → Result (Unit {0} × MemoryDb)
delete_memory_row id db =
    ok (tt, record db { memories = select (λ m. not (str_eq m.id id)) db.memories })

-- INSERT INTO memory_version
unfoldable pub insert_version_row : MemoryVersionRow → MemoryDb → Result (Unit {0} × MemoryDb)
insert_version_row r db =
    if some_of (λ v. str_eq v.id r.id) db.versions || not (has_store r.memory_store_id db)
    then err constraint
    else ok (tt, record db { versions = db.versions ++ r ∷ [] })

-- UPDATE memory_version SET path = NULL, … WHERE id = ?
abbrev pub redacted : ℕ → MemoryVersionRow → MemoryVersionRow
redacted now v = record v {
  path = none;
  content = none;
  content_sha256 = none;
  content_size = none;
  redacted_at = some now;
}

unfoldable pub redact_version_row : String → ℕ → MemoryDb → Result (Unit {0} × MemoryDb)
redact_version_row id now db =
    ok (tt, record db { versions = map (on_id (λ v. v.id) id (redacted now)) db.versions })
