-- ===== src/Memory/Logged.antt =====
-- What the single steps of the writes of internal/store/memory.go leave of the history.
use jadeenvoy.Prelude.{
  OfSome, ℕ, String, Bool, true, false, [], ◌∷◌, ◌++◌, Option, none, some, ◌≡◌, refl, str_eq,
  str_eq_refl, apply_if, if◌then◌else◌, sym, ap, subst, len, first-key, or_else, first-remove,
  last-map, map, not, on_id, select,
}
use jadeenvoy.Action.{Outside, State, next, query}
use jadeenvoy.Action.When.{When, When-bind, When-exec, When-query, When-or_not_found}
use jadeenvoy.Memory.Rows.{
  MemoryRow, MemoryVersionRow, MemoryDb, created, modified, deleted, CreateMemoryInput,
  MemoryVersionInput,
}
use jadeenvoy.Memory.Statements.{find_memory, rewrite, redacted}
use jadeenvoy.Memory.Table.{get_memory, insert_memory_version, new_version, version_of}
use jadeenvoy.Memory.History.{
  Recorded, appended-Recorded, Inserted, insert_version_row-ok, Changed, Agrees, is_deleted,
  last_version,
}

or_else-none : {A : Type 0} (o : Option A) → or_else o none ≡ o
or_else-none none = refl
or_else-none (some a) = refl

module _ (env : Outside) (sha256_hex : String → String) where
  pub get_memory-When :
      (id : String) (w : State MemoryDb) (Q : MemoryRow → State MemoryDb → Type 0)
      → ((m : MemoryRow) → find_memory id w.db.memories ≡ some m → Q m (next w))
      → When (get_memory env sha256_hex id w) Q
  unfolding get_memory
  get_memory-When id w Q h =
      When-bind (query env (λ db. find_memory id db.memories)) _ w Q
        (When-query env _ w _ (When-or_not_found _ (next w) Q h))

  pub insert_memory_version-When :
      (input : MemoryVersionInput) (w : State MemoryDb) (Q : Unit {0} → State MemoryDb → Type 0)
      → ((u : Unit {0})
          → Q u (record (next w) {
            db = record w.db {
              versions =
                  w.db.versions
                  ++ new_version (env.new_id "mver" w.tick) (env.now_ms w.tick) input ∷ [];
            };
          }))
      → When (insert_memory_version env sha256_hex input w) Q
  unfolding insert_memory_version
  insert_memory_version-When input w Q h = When-exec env _ w Q (λ u s e.
      subst (λ t. Q u (record (next w) { db = t })) (sym (insert_version_row-ok _ w.db s u e))
        (h u))

  abbrev logged : MemoryDb → String → ℕ → MemoryVersionInput → MemoryDb
  logged s id now input = record s { versions = s.versions ++ new_version id now input ∷ [] }

  -- The input of a version says what a row holds.
  abbrev Says : MemoryVersionInput → MemoryRow → Type 0
  Says input m =
      (input.memory_id ≡ m.id)
      × (is_deleted input.operation ≡ false)
      × (input.path ≡ m.path)
      × (input.content ≡ m.content)
      × (input.content_sha256 ≡ m.content_sha256)
      × (input.content_size ≡ m.content_size)

  -- A row is written and then described.
  logged-Recorded :
      (db s : MemoryDb) (m : MemoryRow) (id : String) (now : ℕ) (input : MemoryVersionInput)
      → Recorded db
      → s.versions ≡ db.versions
      → ((j : String)
          → str_eq m.id j ≡ false
          → find_memory j s.memories ≡ find_memory j db.memories)
      → find_memory m.id s.memories ≡ some m
      → Says input m
      → Recorded (logged s id now input)
  unfolding new_version
  logged-Recorded db s m id now input r vs others found (key, op, path, content, sum, size) =
      appended-Recorded db _ (new_version id now input) r (rw vs refl) (rw key others)
        (rw (key, found) (op, (ap some path, ap some content, ap some sum, ap some size)))

  pub insert-Recorded :
      (db s : MemoryDb) (row : MemoryRow) (id : String) (now : ℕ)
      → Recorded db
      → Inserted row db s
      → Recorded (logged s id now (version_of created row.created_at row))
  insert-Recorded db s row id now r (vs, finds, free) =
      logged-Recorded db s row id now _ r vs (λ j differs. rw (finds j, differs) (or_else-none _))
        (rw (finds row.id, free, str_eq_refl row.id) refl) (refl, refl, refl, refl, refl, refl)

  pub change-Recorded :
      (db s : MemoryDb) (f : MemoryRow → MemoryRow) (m : MemoryRow) (key id : String) (now : ℕ)
      (input : MemoryVersionInput)
      → Recorded db
      → Changed key f db s
      → find_memory key s.memories ≡ some m
      → Says input m
      → Recorded (logged s id now input)
  change-Recorded db s f m key id now input r (vs, finds) found says =
      let same : m.id ≡ key = first-key (λ x. x.id) key s.memories m found in
      logged-Recorded db s m id now input r vs (λ j differs. rw (finds j, rw same at differs) refl)
        (subst (λ k. find_memory k s.memories ≡ some m) (sym same) found) says

  pub removed-Recorded :
      (id : String) (current : MemoryRow) (db : MemoryDb) (vid : String) (tick now : ℕ)
      → Recorded db
      → find_memory id db.memories ≡ some current
      → Recorded (record db {
        memories = select (λ m. not (str_eq m.id id)) db.memories;
        versions = db.versions ++ new_version vid tick (version_of deleted now current) ∷ [];
      })
  unfolding new_version
  removed-Recorded id current db vid tick now r found =
      let same : current.id ≡ id = first-key (λ x. x.id) id db.memories current found in
      appended-Recorded db _ (new_version vid tick (version_of deleted now current)) r refl
        (λ j differs. rw (first-remove (λ m. m.id) j id db.memories, rw same at differs) refl)
        (rw (same, first-remove (λ m. m.id) id id db.memories, str_eq_refl id) refl)

  pub redacted-Recorded :
      (id : String) (now : ℕ) (db : MemoryDb)
      → Recorded db
      → Recorded (record db { versions = map (on_id (λ v. v.id) id (redacted now)) db.versions })
  redacted-Recorded id now db r = record {
    at = λ j.
        rw
          (last-map (λ v. str_eq v.memory_id j) (on_id (λ v. v.id) id (redacted now)) db.versions
            (λ v. keeps_id j v (str_eq v.id id)))
          (still (last_version j db.versions) (find_memory j db.memories) (r.at j));
  }
    where
      keeps_id :
          (j : String) (v : MemoryVersionRow) (b : Bool)
          → str_eq (if b then redacted now v else v).memory_id j ≡ str_eq v.memory_id j
      keeps_id j v true = refl
      keeps_id j v false = refl

      still :
          (v : Option MemoryVersionRow) (m : Option MemoryRow)
          → Agrees v m
          → Agrees (apply_if (on_id (λ v. v.id) id (redacted now)) true v) m
      still none m h = h
      still (some v) m h = one_version v m (str_eq v.id id) h
        where
          one_version :
              (v : MemoryVersionRow) (m : Option MemoryRow) (b : Bool)
              → Agrees (some v) m
              → Agrees (some (if b then redacted now v else v)) m
          one_version v m false h = h
          one_version v none true h = h
          one_version v (some m) true h = (h.0, tt)

  pub overwritten :
      (id : String) (input : CreateMemoryInput) (now : ℕ) (db s : MemoryDb) (before : MemoryRow)
      → Changed id
          (λ m. rewrite m.path input.content (sha256_hex input.content) (len input.content) now m)
          db
          s
      → find_memory id s.memories ≡ some before
      → Says
          (record (version_of modified now before) {
            content = input.content;
            content_sha256 = sha256_hex input.content;
            content_size = len input.content;
          })
          before
  overwritten id input now db s before (vs, finds) found =
      from (find_memory id db.memories) (rw (finds id, str_eq_refl id) at found)
    where
      from :
          (o : Option MemoryRow)
          → apply_if
              (λ m.
                rewrite m.path input.content (sha256_hex input.content) (len input.content) now m)
              true
              o
            ≡ some before
          → Says
              (record (version_of modified now before) {
                content = input.content;
                content_sha256 = sha256_hex input.content;
                content_size = len input.content;
              })
              before
      from none h = cc
      from (some old) h = (
        refl,
        refl,
        refl,
        subst (OfSome (λ m. input.content ≡ m.content)) h refl,
        subst (OfSome (λ m. sha256_hex input.content ≡ m.content_sha256)) h refl,
        subst (OfSome (λ m. len input.content ≡ m.content_size)) h refl,
      )
