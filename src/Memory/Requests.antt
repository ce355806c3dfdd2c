-- ===== src/Memory/Requests.antt =====
-- Any sequence of requests to internal/memory/service.go.
use jadeenvoy.Memory.Logged.{get_memory-When}
use jadeenvoy.Memory.Rows.{
  created, modified, CreateMemoryInput, MemoryRow, MemoryVersionInput, UpdateMemoryInput,
}
use jadeenvoy.Memory.Service.{is_absolute, max_memory_size}
use jadeenvoy.Prelude.{
  ℕ, ◌≤◌, String, first, len, true, ◌≡◌, Bool-cases, Option, arith, false, inl, inr, none, not,
  some, str_eq, ◌&&◌,
}
use jadeenvoy.Action.{Outside, ◌>>◌, exec, query, at_tick}
use jadeenvoy.Action.Keeps.{
  Keeps, Yields, keep_rules, Keeps-at_tick, Keeps-bind, Keeps-exec, Keeps-option, Keeps-query,
  Keeps-known,
}
use jadeenvoy.Memory.Statements.{insert_memory, is_at, update_memory_row}
use jadeenvoy.Memory.Table
use jadeenvoy.Memory.Service
use jadeenvoy.Memory.Bounds.{
  IsWithin, IsBounded, found-IsWithin, insert_memory-IsBounded, insert_version_row-IsBounded,
  update_memory_row-IsBounded, delete_memory_row-IsBounded,
}

module _ (env : Outside) (sha256_hex : String → String) where
  pub row-IsBounded : (r : MemoryRow) → IsWithin r → Keeps IsBounded (exec env (insert_memory r))
  row-IsBounded r g = Keeps-exec env _ (λ db. insert_memory-IsBounded r db g)

  pub get_memory_store-IsBounded :
      (id : String) → Keeps IsBounded (Table.get_memory_store env sha256_hex id)
  unfolding Table.get_memory_store
  get_memory_store-IsBounded id = search keep_rules

  pub get_memory-IsBounded : (id : String) → Keeps IsBounded (Table.get_memory env sha256_hex id)
  unfolding Table.get_memory
  get_memory-IsBounded id = search keep_rules

  pub get_memory-IsWithin :
      (id : String) → Yields IsBounded (Table.get_memory env sha256_hex id) IsWithin
  get_memory-IsWithin id w h =
      get_memory-When env sha256_hex id w (λ m w'. IsWithin m)
        (λ m found. found-IsWithin id w.db.memories m h found)

  pub get_memory_version-IsBounded :
      (id : String) → Keeps IsBounded (Table.get_memory_version env sha256_hex id)
  unfolding Table.get_memory_version
  get_memory_version-IsBounded id = search keep_rules

  pub version-IsBounded :
      (i : MemoryVersionInput) → Keeps IsBounded (Table.insert_memory_version env sha256_hex i)
  unfolding Table.insert_memory_version
  version-IsBounded i = search (keep_rules, Keeps-exec, insert_version_row-IsBounded)

  pub create_memory-IsBounded :
      (i : CreateMemoryInput)
      → is_absolute i.path ≡ true
      → len i.content ≤ max_memory_size
      → Keeps IsBounded (Table.create_memory env sha256_hex i)
  unfolding Table.create_memory Table.new_memory
  create_memory-IsBounded i absolute fits = record {
    at = λ w.
        (rest (Table.new_memory env sha256_hex (env.new_id "mem" w.tick) (env.now_ms w.tick) i)
            (absolute, fits)).at
          w;
  }
    where
      rest :
          (row : MemoryRow)
          → IsWithin row
          → Keeps IsBounded (
              exec env (insert_memory row)
              >> (Table.insert_memory_version env sha256_hex
                    (Table.version_of created row.created_at row)
                  >> Table.get_memory env sha256_hex row.id))
      rest row g = Keeps-bind (exec env (insert_memory row)) _ (row-IsBounded row g) (λ u.
          Keeps-bind
            (Table.insert_memory_version env sha256_hex
              (Table.version_of created row.created_at row))
            _ (version-IsBounded _) (λ u'. get_memory-IsBounded row.id))

  pub update_row-IsBounded :
      (id : String) (path : MemoryRow → String) (content : String) (now : ℕ)
      → ((m : MemoryRow) → is_absolute m.path ≡ true → is_absolute (path m) ≡ true)
      → len content ≤ max_memory_size
      → Keeps IsBounded
          (exec env (update_memory_row id path content (sha256_hex content) (len content) now))
  update_row-IsBounded id path content now keeps fits =
      Keeps-exec env _ (λ db. update_memory_row-IsBounded id path content _ _ now db keeps fits)

  pub overwrite-IsBounded :
      (id : String) (i : CreateMemoryInput) (now : ℕ)
      → len i.content ≤ max_memory_size
      → Keeps IsBounded (Table.overwrite env sha256_hex id i now)
  unfolding Table.overwrite
  overwrite-IsBounded id i now fits =
      Keeps-bind (exec env _) _
        (update_row-IsBounded id (λ m. m.path) i.content now (λ m a. a) fits)
        (λ u. Keeps-bind (Table.get_memory env sha256_hex id) _ (get_memory-IsBounded id) (λ before.
          Keeps-bind (Table.insert_memory_version env sha256_hex _) _ (version-IsBounded _)
            (λ u'. get_memory-IsBounded id)))

  pub upsert_row-IsBounded :
      (i : CreateMemoryInput)
      → is_absolute i.path ≡ true
      → len i.content ≤ max_memory_size
      → Keeps IsBounded (Table.upsert_memory env sha256_hex i)
  unfolding Table.upsert_memory
  upsert_row-IsBounded i absolute fits =
      Keeps-bind (at_tick env.now_ms) _ (Keeps-at_tick env.now_ms) (λ now.
        Keeps-bind (query env (λ db. first (is_at i.memory_store_id i.path) db.memories)) _
          (Keeps-query env _)
          (λ found.
            Keeps-option found _ _ (create_memory-IsBounded i absolute fits)
              (λ m. overwrite-IsBounded m.id i now fits)))

  content-fits :
      (c : Option String) (d : String)
      → Service.too_long c ≡ false
      → len d ≤ max_memory_size
      → len (Table.content_or c d) ≤ max_memory_size
  content-fits none d h fits = fits
  content-fits (some c) d h fits = ground (arith, h)

  path-absolute :
      (p q : String)
      → (not (str_eq p "") && not (is_absolute p)) ≡ false
      → is_absolute q ≡ true
      → is_absolute (Table.path_or p q) ≡ true
  path-absolute p q h a = elim (Bool-cases (str_eq p "")) [
    | inl empty ↦ rw empty a
    | inr given ↦ elim (Bool-cases (is_absolute p)) [
      | inl absolute ↦ rw given absolute
      | inr relative ↦ cc (rw (given, relative) at h)
    ]
  ]

  pub update_row_of-IsBounded :
      (i : UpdateMemoryInput)
      → (not (str_eq i.path "") && not (is_absolute i.path)) ≡ false
      → Service.too_long i.content ≡ false
      → Keeps IsBounded (Table.update_memory env sha256_hex i)
  unfolding Table.update_memory
  update_row_of-IsBounded i p c =
      Keeps-known (Table.get_memory env sha256_hex i.id) IsWithin _ (get_memory-IsBounded i.id)
        (get_memory-IsWithin i.id)
        (λ current g. Keeps-bind (at_tick env.now_ms) _ (Keeps-at_tick env.now_ms) (λ now.
          Keeps-bind (exec env _) _
            (update_row-IsBounded i.id (λ m. Table.path_or i.path current.path)
              (Table.content_or i.content current.content) now
              (λ m a. path-absolute i.path current.path p g.0)
              (content-fits i.content current.content c g.1))
            (λ u.
              Keeps-bind
                (Table.insert_memory_version env sha256_hex
                  (record (Table.version_of modified now current) {
                    path = Table.path_or i.path current.path;
                    content = Table.content_or i.content current.content;
                    content_sha256 = sha256_hex (Table.content_or i.content current.content);
                    content_size = len (Table.content_or i.content current.content);
                  }))
                _ (version-IsBounded _) (λ u'. get_memory-IsBounded i.id))))

  pub delete_row-IsBounded : (id : String) → Keeps IsBounded (Table.delete_memory env sha256_hex id)
  unfolding Table.delete_memory
  delete_row-IsBounded id =
      search (
        keep_rules, Keeps-exec, delete_memory_row-IsBounded, version-IsBounded,
        get_memory-IsBounded,
      )
