-- ===== src/Memory/Faithful.antt =====
-- Sequences of calls of internal/store/memory.go against the history of versions.
use jadeenvoy.Memory.Recorded.{
  create_memory-Recorded, delete_memory-Recorded, redact_memory_version-Recorded,
  update_memory-Recorded, upsert_memory-Recorded,
}
use jadeenvoy.Memory.Statements.{archive_store_row, insert_store, is_open, rename_store}
use jadeenvoy.Memory.Table.{
  archive_memory_store, create_memory_store, get_memory, get_memory_store, get_memory_version,
  list_memories, list_memory_stores, list_memory_versions, update_memory_store, create_memory,
  redact_memory_version, update_memory, upsert_memory,
}
use jadeenvoy.Prelude.{
  ℕ, String, List, [], ◌∷◌, Option, ◌≡◌, Bool, true, false, All, Bool-cases, Option-cases, first,
  inl, inr, not, some_of, str_eq, ◌&&◌, ◌||◌,
}
use jadeenvoy.Errors.{Result, err, ok}
use jadeenvoy.Action.{Outside, State, Act, ◌>>=◌, pure, each}
use jadeenvoy.Action.Keeps.{Keeps, Keeps-exec, keep_rules, Keeps-each, Holds}
use jadeenvoy.Action.When.{When, When-bind, When-then}
use jadeenvoy.Memory.Rows.{MemoryDb, CreateMemoryStoreInput, MemoryStoreRow}
use jadeenvoy.Memory.History.{Recorded}
use jadeenvoy.Memory.Calls.{
  MemoryCall, perform_memory, memory_create, memory_delete, memory_get, memory_list, memory_update,
  memory_upsert, store_archive, store_create, store_delete, store_get, store_list, store_update,
  version_get, version_list, version_redact,
}

abbrev pub deletes_store : MemoryCall → Bool
deletes_store (store_delete id) = true
deletes_store _ = false

Keeps-When :
    {S A : Type 0} (P : S → Type 0) (m : Act S A) (w : State S)
    → Keeps P m
    → P w.db
    → When (m w) (λ a w'. P w'.db)
Keeps-When {S = S} {A = A} P m w k h = after (m w).0 (m w).1 (k.at w h)
  where
    after : (r : Result A) (w' : State S) → P w'.db → When (r, w') (λ a w''. P w''.db)
    after (ok a) w' h = h
    after (err e) w' h = tt

When-done :
    {S A : Type 0} (P : S → Type 0) (m : Act S A) (w : State S)
    → When (m w) (λ a w'. P w'.db)
    → When ((m >>= λ _. pure tt) w) (λ u w'. P w'.db)
When-done P m w h = When-bind m _ w _ h

-- A statement that leaves memories and versions alone.
same_history :
    (db : MemoryDb) (ss : List MemoryStoreRow) → Recorded db → Recorded (record db { stores = ss })
same_history db ss r = record { at = r.at }

insert_store-Recorded :
    (s : MemoryStoreRow) (db : MemoryDb) → Recorded db → Holds Recorded (insert_store s db)
unfolding insert_store
insert_store-Recorded s db r =
    elim (Bool-cases (
      some_of (λ t. str_eq t.id s.id || (str_eq t.tenant_id s.tenant_id && str_eq t.name s.name))
        db.stores)) [ inl taken ↦ rw taken tt | inr free ↦ rw free (same_history db _ r) ]

rename_store-Recorded :
    (id name : String) (description : Option String) (now : ℕ) (db : MemoryDb)
    → Recorded db
    → Holds Recorded (rename_store id name description now db)
unfolding rename_store
rename_store-Recorded id name description now db r =
    elim (Option-cases (first (is_open id) db.stores)) [
      | inl gone ↦ rw (rename_store, gone) r
      | inr (row, found) ↦
          elim (Bool-cases (
            some_of
              (λ s. not (str_eq s.id id) && str_eq s.tenant_id row.tenant_id && str_eq s.name name)
              db.stores)) [
                | inl taken ↦ rw (rename_store, found, taken) tt
                | inr free ↦ rw (rename_store, found, free) (same_history db _ r)
              ]
    ]

archive_store_row-Recorded :
    (id : String) (now : ℕ) (db : MemoryDb)
    → Recorded db
    → Holds Recorded (archive_store_row id now db)
unfolding archive_store_row
archive_store_row-Recorded id now db r = same_history db _ r

module _ (env : Outside) (sha256_hex : String → String) where
  get_memory_store-Recorded : (id : String) → Keeps Recorded (get_memory_store env sha256_hex id)
  unfolding get_memory_store
  get_memory_store-Recorded id = search keep_rules

  get_memory-Recorded : (id : String) → Keeps Recorded (get_memory env sha256_hex id)
  unfolding get_memory
  get_memory-Recorded id = search keep_rules

  get_memory_version-Recorded :
      (id : String) → Keeps Recorded (get_memory_version env sha256_hex id)
  unfolding get_memory_version
  get_memory_version-Recorded id = search keep_rules

  create_memory_store-Recorded :
      (i : CreateMemoryStoreInput) → Keeps Recorded (create_memory_store env sha256_hex i)
  unfolding create_memory_store
  create_memory_store-Recorded i =
      search (keep_rules, Keeps-exec, insert_store-Recorded, get_memory_store-Recorded)

  update_memory_store-Recorded :
      (id n d : String) → Keeps Recorded (update_memory_store env sha256_hex id n d)
  unfolding update_memory_store
  update_memory_store-Recorded id n d =
      search (keep_rules, Keeps-exec, rename_store-Recorded, get_memory_store-Recorded)

  archive_memory_store-Recorded :
      (id : String) → Keeps Recorded (archive_memory_store env sha256_hex id)
  unfolding archive_memory_store
  archive_memory_store-Recorded id =
      search (keep_rules, Keeps-exec, archive_store_row-Recorded, get_memory_store-Recorded)

  list_memory_stores-Recorded :
      (t : String) (n : ℕ) → Keeps Recorded (list_memory_stores env sha256_hex t n)
  unfolding list_memory_stores
  list_memory_stores-Recorded t n = search (keep_rules, Keeps-each, get_memory_store-Recorded)

  list_memories-Recorded :
      (s p : String) (n : ℕ) → Keeps Recorded (list_memories env sha256_hex s p n)
  unfolding list_memories
  list_memories-Recorded s p n = search (keep_rules, Keeps-each, get_memory-Recorded)

  list_memory_versions-Recorded :
      (s m : String) (n : ℕ) → Keeps Recorded (list_memory_versions env sha256_hex s m n)
  unfolding list_memory_versions
  list_memory_versions-Recorded s m n = search (keep_rules, Keeps-each, get_memory_version-Recorded)

  perform_memory-Recorded :
      (c : MemoryCall) (w : State MemoryDb)
      → deletes_store c ≡ false
      → Recorded w.db
      → When (perform_memory env sha256_hex c w) (λ u w'. Recorded w'.db)
  unfolding perform_memory
  perform_memory-Recorded (store_create i) w d r =
      Keeps-When Recorded (perform_memory env sha256_hex (store_create i)) w
        (search (keep_rules, create_memory_store-Recorded)) r
  perform_memory-Recorded (store_get id) w d r =
      Keeps-When Recorded (perform_memory env sha256_hex (store_get id)) w
        (search (keep_rules, get_memory_store-Recorded)) r
  perform_memory-Recorded (store_archive id) w d r =
      Keeps-When Recorded (perform_memory env sha256_hex (store_archive id)) w
        (search (keep_rules, archive_memory_store-Recorded)) r
  perform_memory-Recorded (store_delete id) w d r = cc
  perform_memory-Recorded (store_list t n) w d r =
      Keeps-When Recorded (perform_memory env sha256_hex (store_list t n)) w
        (search (keep_rules, list_memory_stores-Recorded)) r
  perform_memory-Recorded (store_update id n e) w d r =
      Keeps-When Recorded (perform_memory env sha256_hex (store_update id n e)) w
        (search (keep_rules, update_memory_store-Recorded)) r
  perform_memory-Recorded (memory_create i) w d r =
      When-done Recorded (create_memory env sha256_hex i) w
        (create_memory-Recorded env sha256_hex i w r)
  perform_memory-Recorded (memory_upsert i) w d r =
      When-done Recorded (upsert_memory env sha256_hex i) w
        (upsert_memory-Recorded env sha256_hex i w r)
  perform_memory-Recorded (memory_get id) w d r =
      Keeps-When Recorded (perform_memory env sha256_hex (memory_get id)) w
        (search (keep_rules, get_memory-Recorded)) r
  perform_memory-Recorded (memory_delete id) w d r = delete_memory-Recorded env sha256_hex id w r
  perform_memory-Recorded (memory_update i) w d r =
      When-done Recorded (update_memory env sha256_hex i) w
        (update_memory-Recorded env sha256_hex i w r)
  perform_memory-Recorded (memory_list s p n) w d r =
      Keeps-When Recorded (perform_memory env sha256_hex (memory_list s p n)) w
        (search (keep_rules, list_memories-Recorded)) r
  perform_memory-Recorded (version_list s m n) w d r =
      Keeps-When Recorded (perform_memory env sha256_hex (version_list s m n)) w
        (search (keep_rules, list_memory_versions-Recorded)) r
  perform_memory-Recorded (version_get id) w d r =
      Keeps-When Recorded (perform_memory env sha256_hex (version_get id)) w
        (search (keep_rules, get_memory_version-Recorded)) r
  perform_memory-Recorded (version_redact id) w d r =
      When-done Recorded (redact_memory_version env sha256_hex id) w
        (redact_memory_version-Recorded env sha256_hex id w r)

  -- Calls that all return without an error, none of which deletes a store: every memory is what its
  -- last version says, absent if that is a deletion, and equal to it in path, content, digest and
  -- size if the version is not redacted.
  pub perform_each-Recorded :
      (cs : List MemoryCall) (w : State MemoryDb)
      → All (λ c. deletes_store c ≡ false) cs
      → Recorded w.db
      → When (each (perform_memory env sha256_hex) cs w) (λ us w'. Recorded w'.db)
  unfolding each
  perform_each-Recorded [] w d r = r
  perform_each-Recorded (c ∷ cs) w d r = When-bind (perform_memory env sha256_hex c) _ w _ (
      When-then (perform_memory env sha256_hex c w) (perform_memory-Recorded c w d.0 r) (λ u w' r'.
        When-bind (each (perform_memory env sha256_hex) cs) _ w' _ (
          When-then (each (perform_memory env sha256_hex) cs w')
            (perform_each-Recorded cs w' d.1 r') (λ us w'' r''. r''))))
