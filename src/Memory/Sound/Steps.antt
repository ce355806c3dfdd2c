-- ===== src/Memory/Sound/Steps.antt =====
-- The statements of internal/store/memory.go on well-formed tables.
use jadeenvoy.Prelude.{
  Apart-append, Apart-select, All-select, ℕ, String, Bool, true, false, not, ◌&&◌, ◌||◌, List, [],
  ◌∷◌, ◌++◌, Option, ◌≡◌, refl, str_eq, str_eq_iff, first, some_of, select, map, if◌then◌else◌, All,
  All-append, arith, Bool-cases, Option-cases, inl, inr, len, All-implies, All-map,
}
use jadeenvoy.Action.Keeps.{Holds}
use jadeenvoy.Memory.Rows.{MemoryRow, MemoryStoreRow, MemoryVersionRow, MemoryDb}
use jadeenvoy.Memory.Statements.{
  find_memory, is_at, has_store, rewrite, insert_store, rename_store, archive_store_row,
  delete_store_row, insert_memory, update_memory_row, delete_memory_row, insert_version_row,
  redact_version_row, is_open, update_open,
}
use jadeenvoy.Memory.Sound.{IsSound, clash, clash_comm, Digested}
use jadeenvoy.Memory.Sound.Updates.{update-Apart}

has_store-append :
    (id : String) (ss : List MemoryStoreRow) (s : MemoryStoreRow)
    → some_of (λ s. str_eq s.id id) ss ≡ true
    → some_of (λ s. str_eq s.id id) (ss ++ s ∷ []) ≡ true
has_store-append id [] s h = ground arith
has_store-append id (t ∷ ss) s h = ground (arith, has_store-append id ss s)

has_store-map :
    (id : String) (f : MemoryStoreRow → MemoryStoreRow) (ss : List MemoryStoreRow)
    → ((s : MemoryStoreRow) → (f s).id ≡ s.id)
    → some_of (λ s. str_eq s.id id) ss ≡ true
    → some_of (λ s. str_eq s.id id) (map f ss) ≡ true
has_store-map id f [] k h = h
has_store-map id f (t ∷ ss) k h = ground (arith, has_store-map id f ss k, k t)

has_store-select :
    (id j : String) (ss : List MemoryStoreRow)
    → str_eq id j ≡ false
    → some_of (λ s. str_eq s.id id) ss ≡ true
    → some_of (λ s. str_eq s.id id) (select (λ s. not (str_eq s.id j)) ss) ≡ true
has_store-select id j [] ne h = h
has_store-select id j (t ∷ ss) ne h =
    ground
      (arith, has_store-select id j ss ne, str_eq_iff t.id id, str_eq_iff t.id j, str_eq_iff id j)

update_open-id :
    (id : String) (f : MemoryStoreRow → MemoryStoreRow)
    → ((s : MemoryStoreRow) → (f s).id ≡ s.id)
    → (s : MemoryStoreRow) → (update_open id f s).id ≡ s.id
update_open-id id f k s = elim (Bool-cases (is_open id s)) [
  | inl hit ↦ rw hit (k s)
  | inr miss ↦ rw miss refl
]

module _ (sha256_hex : String → String) where
  -- The stores change, and each that a memory stands in is still there.
  restored :
      (db : MemoryDb) (ss : List MemoryStoreRow) (vs : List MemoryVersionRow)
      → ((id : String)
          → some_of (λ s. str_eq s.id id) db.stores ≡ true
          → some_of (λ s. str_eq s.id id) ss ≡ true)
      → IsSound sha256_hex db
      → IsSound sha256_hex (record db { stores = ss; versions = vs })
  restored db ss vs k h = record {
    apart = h.apart;
    digested = h.digested;
    housed = All-implies _ _ db.memories (λ m. k m.memory_store_id) h.housed;
  }

  pub insert_store-IsSound :
      (r : MemoryStoreRow) (db : MemoryDb)
      → IsSound sha256_hex db
      → Holds (IsSound sha256_hex) (insert_store r db)
  unfolding insert_store
  insert_store-IsSound r db h =
      elim (Bool-cases (
        some_of (λ s. str_eq s.id r.id || (str_eq s.tenant_id r.tenant_id && str_eq s.name r.name))
          db.stores)) [
            | inl taken ↦ rw taken tt
            | inr free ↦
                rw free (restored db _ db.versions (λ id. has_store-append id db.stores r) h)
          ]

  pub rename_store-IsSound :
      (id name : String) (description : Option String) (now : ℕ) (db : MemoryDb)
      → IsSound sha256_hex db
      → Holds (IsSound sha256_hex) (rename_store id name description now db)
  unfolding rename_store
  rename_store-IsSound id name description now db h =
      elim (Option-cases (first (is_open id) db.stores)) [
        | inl gone ↦ rw (rename_store, gone) h
        | inr (row, found) ↦
            elim (Bool-cases (
              some_of
                (λ s.
                  not (str_eq s.id id) && str_eq s.tenant_id row.tenant_id && str_eq s.name name)
                db.stores)) [
                  | inl taken ↦ rw (rename_store, found, taken) tt
                  | inr free ↦
                      rw (rename_store, found, free)
                        (restored db _ db.versions
                          (λ j. has_store-map j _ db.stores (update_open-id id _ (λ s. refl))) h)
                ]
      ]

  pub archive_store_row-IsSound :
      (id : String) (now : ℕ) (db : MemoryDb)
      → IsSound sha256_hex db
      → Holds (IsSound sha256_hex) (archive_store_row id now db)
  unfolding archive_store_row
  archive_store_row-IsSound id now db h =
      restored db _ db.versions (λ j. has_store-map j _ db.stores (update_open-id id _ (λ s. refl)))
        h

  pub insert_memory-IsSound :
      (r : MemoryRow) (db : MemoryDb)
      → Digested sha256_hex r
      → IsSound sha256_hex db
      → Holds (IsSound sha256_hex) (insert_memory r db)
  unfolding insert_memory
  insert_memory-IsSound r db d h = elim (Bool-cases (some_of (clash r) db.memories)) [
    | inl taken ↦ rw taken tt
    | inr free ↦ elim (Bool-cases (has_store r.memory_store_id db)) [
      | inr homeless ↦ rw (free, homeless) tt
      | inl house ↦
          rw (free, house)
            (record {
              apart = Apart-append clash clash_comm db.memories r free h.apart;
              digested = All-append _ db.memories (r ∷ []) h.digested (d, tt);
              housed = All-append _ db.memories (r ∷ []) h.housed (house, tt);
            })
    ]
  ]

  pub update_memory_row-IsSound :
      (id : String) (path : MemoryRow → String) (content : String) (now : ℕ) (db : MemoryDb)
      → IsSound sha256_hex db
      → Holds
          (IsSound sha256_hex)
          (update_memory_row id path content (sha256_hex content) (len content) now db)
  unfolding update_memory_row
  update_memory_row-IsSound id path content now db h =
      elim (Option-cases (find_memory id db.memories)) [
        | inl gone ↦ rw (update_memory_row, gone) h
        | inr (row, found) ↦
            elim (Bool-cases (
              some_of (λ m. not (str_eq m.id id) && is_at row.memory_store_id (path row) m)
                db.memories)) [
                  | inl taken ↦ rw (update_memory_row, found, taken) tt
                  | inr free ↦
                      rw (update_memory_row, found, free)
                        (record {
                          apart =
                              update-Apart id row path content (sha256_hex content) (len content)
                                now db.memories h.apart found free;
                          digested =
                              All-map _ _ db.memories (λ m d. digest m d (str_eq m.id id))
                                h.digested;
                          housed =
                              All-map _ _ db.memories (λ m k. house m k (str_eq m.id id)) h.housed;
                        })
                ]
      ]
    where
      digest :
          (m : MemoryRow)
          → Digested sha256_hex m
          → (b : Bool)
          → Digested sha256_hex
              (if b then rewrite (path m) content (sha256_hex content) (len content) now m else m)
      digest m d true = (refl, refl)
      digest m d false = d

      house :
          (m : MemoryRow)
          → has_store m.memory_store_id db ≡ true
          → (b : Bool)
          → has_store
              (if b
                then rewrite (path m) content (sha256_hex content) (len content) now m
                else m).memory_store_id
              db
            ≡ true
      house m k true = k
      house m k false = k

  pub delete_memory_row-IsSound :
      (id : String) (db : MemoryDb)
      → IsSound sha256_hex db
      → Holds (IsSound sha256_hex) (delete_memory_row id db)
  unfolding delete_memory_row
  delete_memory_row-IsSound id db h = record {
    apart = Apart-select clash _ db.memories h.apart;
    digested = All-select _ _ db.memories h.digested;
    housed = All-select _ _ db.memories h.housed;
  }

  pub delete_store_row-IsSound :
      (id : String) (db : MemoryDb)
      → IsSound sha256_hex db
      → Holds (IsSound sha256_hex) (delete_store_row id db)
  unfolding delete_store_row
  delete_store_row-IsSound id db h = record {
    apart = Apart-select clash _ db.memories h.apart;
    digested = All-select _ _ db.memories h.digested;
    housed = elsewhere db.memories h.housed;
  }
    where
      elsewhere :
          (ms : List MemoryRow)
          → All (λ m. has_store m.memory_store_id db ≡ true) ms
          → All
              (λ m.
                some_of
                  (λ s. str_eq s.id m.memory_store_id)
                  (select (λ s. not (str_eq s.id id)) db.stores)
                ≡ true)
              (select (λ m. not (str_eq m.memory_store_id id)) ms)
      elsewhere [] a = tt
      elsewhere (m ∷ ms) a = elim (Bool-cases (str_eq m.memory_store_id id)) [
        | inl goes ↦ rw goes (elsewhere ms a.1)
        | inr stays ↦
            rw stays (has_store-select m.memory_store_id id db.stores stays a.0, elsewhere ms a.1)
      ]

  pub insert_version_row-IsSound :
      (v : MemoryVersionRow) (db : MemoryDb)
      → IsSound sha256_hex db
      → Holds (IsSound sha256_hex) (insert_version_row v db)
  unfolding insert_version_row
  insert_version_row-IsSound v db h =
      elim (Bool-cases
        (some_of (λ w. str_eq w.id v.id) db.versions || not (has_store v.memory_store_id db))) [
          | inl refused ↦ rw refused tt
          | inr good ↦ rw good (restored db db.stores _ (λ id k. k) h)
        ]

  pub redact_version_row-IsSound :
      (id : String) (now : ℕ) (db : MemoryDb)
      → IsSound sha256_hex db
      → Holds (IsSound sha256_hex) (redact_version_row id now db)
  unfolding redact_version_row
  redact_version_row-IsSound id now db h = restored db db.stores _ (λ j k. k) h
