-- ===== src/Memory/Calls.antt =====
-- Any sequence of calls of internal/store/memory.go.
use jadeenvoy.Memory.Statements.{insert_memory, is_at, update_memory_row}
use jadeenvoy.Memory.Sound.Steps.{
  insert_memory-IsSound, insert_version_row-IsSound, update_memory_row-IsSound,
  archive_store_row-IsSound, delete_memory_row-IsSound, delete_store_row-IsSound,
  insert_store-IsSound, redact_version_row-IsSound, rename_store-IsSound,
}
use jadeenvoy.Prelude.{ℕ, String, List, [], ◌∷◌, refl, first, len}
use jadeenvoy.Action.{Outside, State, Act, ◌>>=◌, ◌>>◌, pure, at_tick, exec, query}
use jadeenvoy.Action.Keeps.{
  Keeps, Keeps-exec, keep_rules, Keeps-each, Keeps-bind, Keeps-option, Keeps-query, Keeps-at_tick,
}
use jadeenvoy.Memory.Rows.{
  created, modified, MemoryDb, CreateMemoryStoreInput, CreateMemoryInput, UpdateMemoryInput,
  MemoryVersionInput, MemoryRow,
}
use jadeenvoy.Memory.Table.{
  create_memory_store, archive_memory_store, create_memory, delete_memory, delete_memory_store,
  get_memory, get_memory_store, get_memory_version, insert_memory_version, list_memories,
  list_memory_stores, list_memory_versions, new_memory, overwrite, redact_memory_version,
  update_memory, update_memory_store, upsert_memory, content_or, path_or, version_of,
}
use jadeenvoy.Memory.Sound.{IsSound, Digested}

-- A call with its arguments.
pub data MemoryCall : Type 0 where
  store_create : CreateMemoryStoreInput → MemoryCall
  store_get store_archive store_delete : String → MemoryCall
  store_list : String → ℕ → MemoryCall
  store_update : String → String → String → MemoryCall
  memory_create memory_upsert : CreateMemoryInput → MemoryCall
  memory_get memory_delete : String → MemoryCall
  memory_update : UpdateMemoryInput → MemoryCall
  memory_list version_list : String → String → ℕ → MemoryCall
  version_get version_redact : String → MemoryCall

-- The answer is dropped, the error is not.
abbrev done : {S A : Type 0} → Act S A → Act S (Unit {0})
done m = m >>= λ _. pure tt

module _ (env : Outside) (sha256_hex : String → String) where
  unfoldable pub perform_memory : MemoryCall → Act MemoryDb (Unit {0})
  perform_memory (store_create i) = done (create_memory_store env sha256_hex i)
  perform_memory (store_get id) = done (get_memory_store env sha256_hex id)
  perform_memory (store_archive id) = done (archive_memory_store env sha256_hex id)
  perform_memory (store_delete id) = delete_memory_store env sha256_hex id
  perform_memory (store_list t n) = done (list_memory_stores env sha256_hex t n)
  perform_memory (store_update id n d) = done (update_memory_store env sha256_hex id n d)
  perform_memory (memory_create i) = done (create_memory env sha256_hex i)
  perform_memory (memory_upsert i) = done (upsert_memory env sha256_hex i)
  perform_memory (memory_get id) = done (get_memory env sha256_hex id)
  perform_memory (memory_delete id) = delete_memory env sha256_hex id
  perform_memory (memory_update i) = done (update_memory env sha256_hex i)
  perform_memory (memory_list s p n) = done (list_memories env sha256_hex s p n)
  perform_memory (version_list s m n) = done (list_memory_versions env sha256_hex s m n)
  perform_memory (version_get id) = done (get_memory_version env sha256_hex id)
  perform_memory (version_redact id) = done (redact_memory_version env sha256_hex id)

  -- The calls one after another; an error ends only its own call.
  unfoldable pub perform_memories : List MemoryCall → State MemoryDb → State MemoryDb
  perform_memories [] w = w
  perform_memories (c ∷ cs) w = perform_memories cs (perform_memory c w).1

  abbrev Sound : MemoryDb → Type 0
  Sound = IsSound sha256_hex

  get_memory_store-Sound : (id : String) → Keeps Sound (get_memory_store env sha256_hex id)
  unfolding get_memory_store
  get_memory_store-Sound id = search keep_rules

  get_memory-Sound : (id : String) → Keeps Sound (get_memory env sha256_hex id)
  unfolding get_memory
  get_memory-Sound id = search keep_rules

  get_memory_version-Sound : (id : String) → Keeps Sound (get_memory_version env sha256_hex id)
  unfolding get_memory_version
  get_memory_version-Sound id = search keep_rules

  insert_version-Sound :
      (i : MemoryVersionInput) → Keeps Sound (insert_memory_version env sha256_hex i)
  unfolding insert_memory_version
  insert_version-Sound i = search (keep_rules, Keeps-exec, insert_version_row-IsSound)

  insert_row-Sound :
      (r : MemoryRow) → Digested sha256_hex r → Keeps Sound (exec env (insert_memory r))
  insert_row-Sound r d = Keeps-exec env _ (λ db. insert_memory-IsSound sha256_hex r db d)

  update_row-Sound :
      (id : String) (path : MemoryRow → String) (content : String) (now : ℕ)
      → Keeps Sound
          (exec env (update_memory_row id path content (sha256_hex content) (len content) now))
  update_row-Sound id path content now =
      Keeps-exec env _ (update_memory_row-IsSound sha256_hex id path content now)

  create_memory-Sound : (i : CreateMemoryInput) → Keeps Sound (create_memory env sha256_hex i)
  unfolding create_memory new_memory
  create_memory-Sound i = record {
    at = λ w.
        (rest (new_memory env sha256_hex (env.new_id "mem" w.tick) (env.now_ms w.tick) i)
            (refl, refl)).at
          w;
  }
    where
      rest :
          (row : MemoryRow)
          → Digested sha256_hex row
          → Keeps Sound (
              exec env (insert_memory row)
              >> (insert_memory_version env sha256_hex (version_of created row.created_at row)
                  >> get_memory env sha256_hex row.id))
      rest row d = Keeps-bind (exec env (insert_memory row)) _ (insert_row-Sound row d) (λ u.
          Keeps-bind (insert_memory_version env sha256_hex (version_of created row.created_at row))
            _ (insert_version-Sound _) (λ u'. get_memory-Sound row.id))

  overwrite-Sound :
      (id : String) (i : CreateMemoryInput) (now : ℕ)
      → Keeps Sound (overwrite env sha256_hex id i now)
  unfolding overwrite
  overwrite-Sound id i now =
      Keeps-bind (exec env _) _ (update_row-Sound id (λ m. m.path) i.content now) (λ u.
        Keeps-bind (get_memory env sha256_hex id) _ (get_memory-Sound id) (λ before.
          Keeps-bind (insert_memory_version env sha256_hex _) _ (insert_version-Sound _)
            (λ u'. get_memory-Sound id)))

  upsert_memory-Sound : (i : CreateMemoryInput) → Keeps Sound (upsert_memory env sha256_hex i)
  unfolding upsert_memory
  upsert_memory-Sound i = Keeps-bind (at_tick env.now_ms) _ (Keeps-at_tick env.now_ms) (λ now.
      Keeps-bind (query env (λ db. first (is_at i.memory_store_id i.path) db.memories)) _
        (Keeps-query env _)
        (λ found. Keeps-option found _ _ (create_memory-Sound i) (λ m. overwrite-Sound m.id i now)))

  update_memory-Sound : (i : UpdateMemoryInput) → Keeps Sound (update_memory env sha256_hex i)
  unfolding update_memory
  update_memory-Sound i =
      Keeps-bind (get_memory env sha256_hex i.id) _ (get_memory-Sound i.id) (λ current.
        Keeps-bind (at_tick env.now_ms) _ (Keeps-at_tick env.now_ms) (λ now.
          Keeps-bind (exec env _) _
            (update_row-Sound i.id (λ m. path_or i.path current.path)
              (content_or i.content current.content) now)
            (λ u.
              Keeps-bind
                (insert_memory_version env sha256_hex (record (version_of modified now current) {
                  path = path_or i.path current.path;
                  content = content_or i.content current.content;
                  content_sha256 = sha256_hex (content_or i.content current.content);
                  content_size = len (content_or i.content current.content);
                }))
                _ (insert_version-Sound _) (λ u'. get_memory-Sound i.id))))

  delete_memory-Sound : (id : String) → Keeps Sound (delete_memory env sha256_hex id)
  unfolding delete_memory
  delete_memory-Sound id =
      search
        (keep_rules, Keeps-exec, delete_memory_row-IsSound, insert_version-Sound, get_memory-Sound)

  perform_memory-Sound : (c : MemoryCall) → Keeps Sound (perform_memory c)
  unfolding perform_memory create_memory_store archive_memory_store delete_memory_store
      list_memory_stores update_memory_store list_memories list_memory_versions
      redact_memory_version
  perform_memory-Sound (store_create i) =
      search (keep_rules, Keeps-exec, insert_store-IsSound, get_memory_store-Sound)
  perform_memory-Sound (store_get id) = search (keep_rules, get_memory_store-Sound)
  perform_memory-Sound (store_archive id) =
      search (keep_rules, Keeps-exec, archive_store_row-IsSound, get_memory_store-Sound)
  perform_memory-Sound (store_delete id) = search (Keeps-exec, delete_store_row-IsSound)
  perform_memory-Sound (store_list t n) = search (keep_rules, Keeps-each, get_memory_store-Sound)
  perform_memory-Sound (store_update id n d) =
      search (keep_rules, Keeps-exec, rename_store-IsSound, get_memory_store-Sound)
  perform_memory-Sound (memory_create i) = search (keep_rules, create_memory-Sound)
  perform_memory-Sound (memory_upsert i) = search (keep_rules, upsert_memory-Sound)
  perform_memory-Sound (memory_get id) = search (keep_rules, get_memory-Sound)
  perform_memory-Sound (memory_delete id) = delete_memory-Sound id
  perform_memory-Sound (memory_update i) = search (keep_rules, update_memory-Sound)
  perform_memory-Sound (memory_list s p n) = search (keep_rules, Keeps-each, get_memory-Sound)
  perform_memory-Sound (version_list s m n) =
      search (keep_rules, Keeps-each, get_memory_version-Sound)
  perform_memory-Sound (version_get id) = search (keep_rules, get_memory_version-Sound)
  perform_memory-Sound (version_redact id) =
      search (keep_rules, Keeps-exec, redact_version_row-IsSound, get_memory_version-Sound)

  -- Any sequence of calls, failing or not, keeps ids and paths apart, the digest and the size of
  -- every memory those of its content, and every memory in a store that exists.
  pub perform_memories-IsSound :
      (cs : List MemoryCall) (w : State MemoryDb)
      → IsSound sha256_hex w.db
      → IsSound sha256_hex (perform_memories cs w).db
  unfolding perform_memories
  perform_memories-IsSound [] w h = h
  perform_memories-IsSound (c ∷ cs) w h =
      perform_memories-IsSound cs _ ((perform_memory-Sound c).at w h)
