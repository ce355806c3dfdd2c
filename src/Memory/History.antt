-- ===== src/Memory/History.antt =====
-- The versions of internal/store/memory.go as a history of the memories.
use jadeenvoy.Action.When.{wrote}
use jadeenvoy.Prelude.{
  ℕ, String, Bool, true, false, List, [], ◌∷◌, ◌++◌, Option, none, some, ◌≡◌, refl, str_eq,
  str_eq_iff, last, apply_if, or_else, if◌then◌else◌, Bool-cases, Option-cases, inl, inr, subst,
  sym, arith, some_of, first-append, last-append, first-update, ◌||◌, not, ◌&&◌,
}
use jadeenvoy.Errors.{ok}
use jadeenvoy.Memory.Rows.{
  MemoryRow, MemoryVersionRow, MemoryDb, Operation, created, modified, deleted,
}
use jadeenvoy.Memory.Statements.{
  find_memory, is_at, insert_memory, insert_version_row, update_memory_row, rewrite, has_store,
}

abbrev pub is_deleted : Operation → Bool
is_deleted created = false
is_deleted modified = false
is_deleted deleted = true

abbrev pub last_version : String → List MemoryVersionRow → Option MemoryVersionRow
last_version id = last (λ v. str_eq v.memory_id id)

-- A version that is not redacted says what the memory holds.
abbrev pub Matches : MemoryVersionRow → MemoryRow → Type 0
Matches v m = elim v.redacted_at [
  | some t ↦ Unit
  | none ↦
      (v.path ≡ some m.path)
      × (v.content ≡ some m.content)
      × (v.content_sha256 ≡ some m.content_sha256)
      × (v.content_size ≡ some m.content_size)
]

-- The last version of a memory against its row.
abbrev pub Agrees : Option MemoryVersionRow → Option MemoryRow → Type 0
Agrees none none = Unit
Agrees none (some m) = true ≡ false
Agrees (some v) none = is_deleted v.operation ≡ true
Agrees (some v) (some m) = (is_deleted v.operation ≡ false) × Matches v m

-- Every memory is what its last version says: absent if that is a deletion or if there is none.
pub record Recorded (db : MemoryDb) : Type 0 where
  pub at : (id : String) → Agrees (last_version id db.versions) (find_memory id db.memories)

-- A change of one memory that its new version describes.
pub appended-Recorded :
    (db db' : MemoryDb) (v : MemoryVersionRow)
    → Recorded db
    → db'.versions ≡ db.versions ++ v ∷ []
    → ((j : String)
        → str_eq v.memory_id j ≡ false
        → find_memory j db'.memories ≡ find_memory j db.memories)
    → Agrees (some v) (find_memory v.memory_id db'.memories)
    → Recorded db'
appended-Recorded db db' v r vs others this = record {
  at = λ j. elim (Bool-cases (str_eq v.memory_id j)) [
    | inl same ↦
        rw (vs, last-append, same)
          (subst (λ i. Agrees (some v) (find_memory i db'.memories))
            ((str_eq_iff v.memory_id j).0 same) this)
    | inr differs ↦ rw (vs, last-append, differs, others j differs) (r.at j)
  ];
}

absent :
    (r : MemoryRow) (ms : List MemoryRow)
    → some_of (λ m. str_eq m.id r.id || is_at r.memory_store_id r.path m) ms ≡ false
    → find_memory r.id ms ≡ none
absent r [] h = refl
absent r (m ∷ ms) h = ground (arith, absent r ms)

-- What INSERT INTO memory leaves.
abbrev pub Inserted : MemoryRow → MemoryDb → MemoryDb → Type 0
Inserted r db t =
    (t.versions ≡ db.versions)
    × ((j : String)
        → find_memory j t.memories
          ≡ or_else (find_memory j db.memories) (if str_eq r.id j then some r else none))
    × (find_memory r.id db.memories ≡ none)

pub insert_memory-Inserted :
    (r : MemoryRow) (db s : MemoryDb) (u : Unit {0})
    → insert_memory r db ≡ ok (u, s)
    → Inserted r db s
unfolding insert_memory
insert_memory-Inserted r db s u h =
    elim (Bool-cases (
      some_of (λ m. str_eq m.id r.id || is_at r.memory_store_id r.path m) db.memories
      || not (has_store r.memory_store_id db))) [
        | inl bad ↦ cc (rw bad at h)
        | inr good ↦
            subst (Inserted r db) (sym (wrote (rw good at h)))
              (refl, λ j. first-append _ db.memories r, absent r db.memories (ground arith))
      ]

pub insert_version_row-ok :
    (v : MemoryVersionRow) (db s : MemoryDb) (u : Unit {0})
    → insert_version_row v db ≡ ok (u, s)
    → s ≡ record db { versions = db.versions ++ v ∷ [] }
unfolding insert_version_row
insert_version_row-ok v db s u h =
    elim (Bool-cases
      (some_of (λ w. str_eq w.id v.id) db.versions || not (has_store v.memory_store_id db))) [
        | inl bad ↦ cc (rw bad at h)
        | inr good ↦ wrote (rw good at h)
      ]

-- What UPDATE memory … WHERE id = ? leaves.
abbrev pub Changed : String → (MemoryRow → MemoryRow) → MemoryDb → MemoryDb → Type 0
Changed id f db t =
    (t.versions ≡ db.versions)
    × ((j : String)
        → find_memory j t.memories ≡ apply_if f (str_eq id j) (find_memory j db.memories))

pub update_memory_row-Changed :
    (id : String) (path : MemoryRow → String) (content sum : String) (size now : ℕ)
    (db s : MemoryDb) (u : Unit {0})
    → update_memory_row id path content sum size now db ≡ ok (u, s)
    → Changed id (λ m. rewrite (path m) content sum size now m) db s
unfolding update_memory_row
update_memory_row-Changed id path content sum size now db s u h =
    let f : MemoryRow → MemoryRow = λ m. rewrite (path m) content sum size now m in
    elim (Option-cases (find_memory id db.memories)) [
      | inl gone ↦ subst (Changed id f db) (sym (wrote (rw (update_memory_row, gone) at h))) (
        refl,
        λ j. elim (Bool-cases (str_eq id j)) [
          | inl same ↦
              let at_j : find_memory j db.memories ≡ none =
                subst (λ i. find_memory i db.memories ≡ none) ((str_eq_iff id j).0 same) gone in
              rw (same, at_j) refl
          | inr differs ↦ rw differs refl
        ],
      )
      | inr (row, found) ↦
          elim (Bool-cases (
            some_of (λ m. not (str_eq m.id id) && is_at row.memory_store_id (path row) m)
              db.memories)) [
                | inl taken ↦ cc (rw (update_memory_row, found, taken) at h)
                | inr free ↦
                    subst (Changed id f db) (sym (wrote (rw (update_memory_row, found, free) at h)))
                      (refl, λ j. first-update (λ m. m.id) j id f db.memories (λ m. refl))
              ]
    ]
