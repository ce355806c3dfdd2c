-- ===== src/Memory/Recorded.antt =====
-- The writes of internal/store/memory.go against the history of versions.
use jadeenvoy.Prelude.{ℕ, String, Option, none, some, refl, str_eq_refl, sym, subst, len, first}
use jadeenvoy.Action.{Outside, State, Act, next, exec, query}
use jadeenvoy.Action.When.{When, When-bind, When-exec, When-query, When-or_not_found, wrote}
use jadeenvoy.Memory.Rows.{MemoryRow, MemoryDb, created, CreateMemoryInput, UpdateMemoryInput}
use jadeenvoy.Memory.Statements.{
  insert_memory, update_memory_row, delete_memory_row, redact_version_row, rewrite, find_version,
  is_at,
}
use jadeenvoy.Memory.Table.{
  get_memory, create_memory, overwrite, upsert_memory, update_memory, delete_memory,
  redact_memory_version, insert_memory_version, new_version, new_memory, version_of, path_or,
  content_or, get_memory_version,
}
use jadeenvoy.Memory.History.{Recorded, insert_memory-Inserted, Changed, update_memory_row-Changed}
use jadeenvoy.Memory.Logged.{
  get_memory-When, insert_memory_version-When, insert-Recorded, change-Recorded, removed-Recorded,
  redacted-Recorded, overwritten,
}

module _ (env : Outside) (sha256_hex : String → String) where
  pub create_memory-Recorded :
      (input : CreateMemoryInput) (w : State MemoryDb)
      → Recorded w.db
      → When (create_memory env sha256_hex input w) (λ m w'. Recorded w'.db)
  unfolding create_memory
  create_memory-Recorded input w r =
      let row = new_memory env sha256_hex (env.new_id "mem" w.tick) (env.now_ms w.tick) input in
      When-bind (exec env (insert_memory row)) _ w _ (
        When-exec env _ w _ (λ u s e.
          When-bind (insert_memory_version env sha256_hex (version_of created row.created_at row)) _
            _ _
            (insert_memory_version-When env sha256_hex _ _ _ (λ u'.
              get_memory-When env sha256_hex row.id _ _ (λ m found.
                insert-Recorded env sha256_hex w.db s row _ _ r
                  (insert_memory-Inserted row w.db s u e))))))

  overwrite-Recorded :
      (id : String) (input : CreateMemoryInput) (now : ℕ) (w : State MemoryDb)
      → Recorded w.db
      → When (overwrite env sha256_hex id input now w) (λ m w'. Recorded w'.db)
  unfolding overwrite
  overwrite-Recorded id input now w r =
      let f : MemoryRow → MemoryRow =
        λ m. rewrite m.path input.content (sha256_hex input.content) (len input.content) now m in
      When-bind (exec env (update_memory_row id _ _ _ _ _)) _ w _ (
        When-exec env _ w _ (λ u s e.
          let done : Changed id f w.db s = update_memory_row-Changed id _ _ _ _ _ w.db s u e in
          When-bind (get_memory env sha256_hex id) _ _ _ (
            get_memory-When env sha256_hex id _ _ (λ before found.
              When-bind (insert_memory_version env sha256_hex _) _ _ _ (
                insert_memory_version-When env sha256_hex _ _ _ (λ u'.
                  get_memory-When env sha256_hex id _ _ (λ m again.
                    change-Recorded env sha256_hex w.db s f before id _ _ _ r done found
                      (overwritten env sha256_hex id input now w.db s before done found))))))))

  pub update_memory-Recorded :
      (input : UpdateMemoryInput) (w : State MemoryDb)
      → Recorded w.db
      → When (update_memory env sha256_hex input w) (λ m w'. Recorded w'.db)
  unfolding update_memory
  update_memory-Recorded input w r = When-bind (get_memory env sha256_hex input.id) _ w _ (
      get_memory-When env sha256_hex input.id w _ (λ current found.
        let path = path_or input.path current.path in
        let content = content_or input.content current.content in
        let f : MemoryRow → MemoryRow = λ m.
          rewrite path content (sha256_hex content) (len content) (env.now_ms (next w).tick) m in
        When-bind (exec env (update_memory_row input.id _ _ _ _ _)) _ _ _ (
          When-exec env _ _ _ (λ u s e.
            let done : Changed input.id f w.db s =
              update_memory_row-Changed input.id _ _ _ _ _ w.db s u e in
            When-bind (insert_memory_version env sha256_hex _) _ _ _ (
              insert_memory_version-When env sha256_hex _ _ _ (λ u'.
                get_memory-When env sha256_hex input.id _ _ (λ m again.
                  change-Recorded env sha256_hex w.db s f (f current) input.id _ _ _ r done
                    (rw (done.1 input.id, found, str_eq_refl input.id) refl)
                    (refl, refl, refl, refl, refl, refl))))))))

  pub upsert_memory-Recorded :
      (input : CreateMemoryInput) (w : State MemoryDb)
      → Recorded w.db
      → When (upsert_memory env sha256_hex input w) (λ m w'. Recorded w'.db)
  unfolding upsert_memory
  upsert_memory-Recorded input w r =
      When-bind (query env (λ db. first (is_at input.memory_store_id input.path) db.memories)) _ w _
        (When-query env _ w _
          (found (first (is_at input.memory_store_id input.path) w.db.memories)))
    where
      found :
          (o : Option MemoryRow)
          → When
              ((elim o as (λ o. Act MemoryDb MemoryRow) [
                | none ↦ create_memory env sha256_hex input
                | some m ↦ overwrite env sha256_hex m.id input (env.now_ms w.tick)
              ])
                (next w))
              (λ m w'. Recorded w'.db)
      found none = create_memory-Recorded input (next w) r
      found (some m) = overwrite-Recorded m.id input _ (next w) r

  pub delete_memory-Recorded :
      (id : String) (w : State MemoryDb)
      → Recorded w.db
      → When (delete_memory env sha256_hex id w) (λ u w'. Recorded w'.db)
  unfolding delete_memory delete_memory_row new_version
  delete_memory-Recorded id w r = When-bind (get_memory env sha256_hex id) _ w _ (
      get_memory-When env sha256_hex id w _ (λ current found.
        When-bind (insert_memory_version env sha256_hex _) _ _ _ (
          insert_memory_version-When env sha256_hex _ _ _ (λ u.
            When-exec env (delete_memory_row id) _ _ (λ u' s e. subst Recorded (sym (wrote e)) (
              removed-Recorded env sha256_hex id current w.db _ (env.now_ms (next w).tick)
                (env.now_ms (next w).tick) r found))))))

  pub redact_memory_version-Recorded :
      (id : String) (w : State MemoryDb)
      → Recorded w.db
      → When (redact_memory_version env sha256_hex id w) (λ v w'. Recorded w'.db)
  unfolding redact_memory_version get_memory_version redact_version_row
  redact_memory_version-Recorded id w r =
      When-bind (exec env (redact_version_row id (env.now_ms w.tick))) _ w (λ v w'. Recorded w'.db)
        (When-exec env _ w _ (λ u s e.
          let kept : Recorded s =
            subst Recorded (sym (wrote e)) (redacted-Recorded env sha256_hex id _ w.db r) in
          When-bind (query env (λ db. find_version id db.versions)) _ _ (λ v w'. Recorded w'.db)
            (When-query env _ _ _
              (When-or_not_found _ _ (λ v w'. Recorded w'.db) (λ v found. kept)))))
