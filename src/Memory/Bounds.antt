-- ===== src/Memory/Bounds.antt =====
-- What the checks of internal/memory/service.go keep true of the memories.
use jadeenvoy.Memory.Rows.{MemoryDb, MemoryRow, MemoryStoreRow, MemoryVersionRow}
use jadeenvoy.Memory.Service.{is_absolute, max_memory_size}
use jadeenvoy.Memory.Statements.{
  delete_memory_row, find_memory, has_store, insert_memory, insert_store, is_at, rewrite,
  update_memory_row, insert_version_row, is_open, redact_version_row, rename_store,
  archive_store_row, delete_store_row,
}
use jadeenvoy.Prelude.{
  OfSome, All-select, ℕ, ◌≤◌, All, All-append, All-map, Bool, Bool-cases, List, Option-cases,
  String, [], arith, false, if◌then◌else◌, inl, inr, len, not, some, some_of, str_eq, subst, true,
  ◌&&◌, ◌||◌, ◌∷◌, ◌≡◌, Option, first,
}
use jadeenvoy.Action.Keeps.{Holds}

abbrev pub IsWithin : MemoryRow → Type 0
IsWithin m = (is_absolute m.path ≡ true) × (len m.content ≤ max_memory_size)

-- Every path is absolute and every content within MaxMemorySize.
abbrev pub IsBounded : MemoryDb → Type 0
IsBounded db = All IsWithin db.memories

pub insert_memory-IsBounded :
    (r : MemoryRow) (db : MemoryDb)
    → IsWithin r
    → IsBounded db
    → Holds IsBounded (insert_memory r db)
unfolding insert_memory
insert_memory-IsBounded r db g h =
    elim (Bool-cases (
      some_of (λ m. str_eq m.id r.id || is_at r.memory_store_id r.path m) db.memories
      || not (has_store r.memory_store_id db))) [
        | inl bad ↦ rw bad tt
        | inr good ↦ rw good (All-append IsWithin db.memories (r ∷ []) h (g, tt))
      ]

pub update_memory_row-IsBounded :
    (id : String) (path : MemoryRow → String) (content sum : String) (size now : ℕ) (db : MemoryDb)
    → ((m : MemoryRow) → is_absolute m.path ≡ true → is_absolute (path m) ≡ true)
    → len content ≤ max_memory_size
    → IsBounded db
    → Holds IsBounded (update_memory_row id path content sum size now db)
unfolding update_memory_row
update_memory_row-IsBounded id path content sum size now db keeps fits h =
    elim (Option-cases (find_memory id db.memories)) [
      | inl gone ↦ rw (update_memory_row, gone) h
      | inr (row, found) ↦
          elim (Bool-cases (
            some_of (λ m. not (str_eq m.id id) && is_at row.memory_store_id (path row) m)
              db.memories)) [
                | inl taken ↦ rw (update_memory_row, found, taken) tt
                | inr free ↦
                    rw (update_memory_row, found, free)
                      (All-map IsWithin _ db.memories (λ m g. within m g (str_eq m.id id)) h)
              ]
    ]
  where
    within :
        (m : MemoryRow)
        → IsWithin m
        → (b : Bool) → IsWithin (if b then rewrite (path m) content sum size now m else m)
    within m g true = (keeps m g.0, fits)
    within m g false = g

pub delete_store_row-IsBounded :
    (id : String) (db : MemoryDb) → IsBounded db → Holds IsBounded (delete_store_row id db)
unfolding delete_store_row
delete_store_row-IsBounded id db h = All-select IsWithin _ db.memories h

pub delete_memory_row-IsBounded :
    (id : String) (db : MemoryDb) → IsBounded db → Holds IsBounded (delete_memory_row id db)
unfolding delete_memory_row
delete_memory_row-IsBounded id db h = All-select IsWithin _ db.memories h

pub insert_store-IsBounded :
    (s : MemoryStoreRow) (db : MemoryDb) → IsBounded db → Holds IsBounded (insert_store s db)
unfolding insert_store
insert_store-IsBounded s db h = ground (arith, h)

pub found-IsWithin :
    (id : String) (ms : List MemoryRow) (m : MemoryRow)
    → All IsWithin ms
    → find_memory id ms ≡ some m
    → IsWithin m
found-IsWithin id [] m h f = cc
found-IsWithin id (x ∷ ms) m h f = elim (Bool-cases (str_eq x.id id)) [
  | inl this ↦ subst (OfSome IsWithin) (rw this at f) h.0
  | inr rest ↦ found-IsWithin id ms m h.1 (rw rest at f)
]

pub rename_store-IsBounded :
    (id name : String) (description : Option String) (now : ℕ) (db : MemoryDb)
    → IsBounded db
    → Holds IsBounded (rename_store id name description now db)
unfolding rename_store
rename_store-IsBounded id name description now db h =
    elim (Option-cases (first (is_open id) db.stores)) [
      | inl gone ↦ rw (rename_store, gone) h
      | inr (row, found) ↦
          elim (Bool-cases (
            some_of
              (λ s. not (str_eq s.id id) && str_eq s.tenant_id row.tenant_id && str_eq s.name name)
              db.stores)) [
                | inl taken ↦ rw (rename_store, found, taken) tt
                | inr free ↦ rw (rename_store, found, free) h
              ]
    ]

pub archive_store_row-IsBounded :
    (id : String) (now : ℕ) (db : MemoryDb)
    → IsBounded db
    → Holds IsBounded (archive_store_row id now db)
unfolding archive_store_row
archive_store_row-IsBounded id now db h = h

pub insert_version_row-IsBounded :
    (v : MemoryVersionRow) (db : MemoryDb)
    → IsBounded db
    → Holds IsBounded (insert_version_row v db)
unfolding insert_version_row
insert_version_row-IsBounded v db h =
    elim (Bool-cases
      (some_of (λ w. str_eq w.id v.id) db.versions || not (has_store v.memory_store_id db))) [
        | inl bad ↦ rw bad tt
        | inr good ↦ rw good h
      ]

pub redact_version_row-IsBounded :
    (id : String) (now : ℕ) (db : MemoryDb)
    → IsBounded db
    → Holds IsBounded (redact_version_row id now db)
unfolding redact_version_row
redact_version_row-IsBounded id now db h = h
