-- ===== src/Memory/Sound.antt =====
-- The well-formedness of the tables of internal/store/memory.go: ids and paths are keys, the digest
-- and the size are those of the content, and every memory has its store.
pub mod Updates
pub mod Steps
use jadeenvoy.Prelude.{
  Apart, ℕ, String, Bool, true, false, not, ◌&&◌, ◌||◌, List, [], ◌∷◌, ◌++◌, Option, none, some,
  ◌≡◌, refl, str_eq, str_eq_iff, str_eq_refl, first, some_of, select, map, on_id, if◌then◌else◌,
  All, arith, len,
}
use jadeenvoy.Memory.Rows.{MemoryRow, MemoryStoreRow, MemoryDb}
use jadeenvoy.Memory.Statements.{find_memory, is_at, has_store, rewrite}

-- Two rows have the same id, or the same path in the same store.
abbrev pub clash : MemoryRow → MemoryRow → Bool
clash r m = str_eq m.id r.id || is_at r.memory_store_id r.path m

abbrev pub Digested : (String → String) → MemoryRow → Type 0
Digested sha256_hex m = (m.content_sha256 ≡ sha256_hex m.content) × (m.content_size ≡ len m.content)

pub record IsSound (sha256_hex : String → String) (db : MemoryDb) : Type 0 where
  pub apart : Apart clash db.memories
  pub digested : All (Digested sha256_hex) db.memories
  pub housed : All (λ m. has_store m.memory_store_id db ≡ true) db.memories

pub clash_comm : (a b : MemoryRow) → clash a b ≡ clash b a
clash_comm a b = ground (
  arith,
  str_eq_iff a.id b.id,
  str_eq_iff b.id a.id,
  str_eq_iff a.memory_store_id b.memory_store_id,
  str_eq_iff b.memory_store_id a.memory_store_id,
  str_eq_iff a.path b.path,
  str_eq_iff b.path a.path,
)
