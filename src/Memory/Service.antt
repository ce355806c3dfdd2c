-- ===== src/Memory/Service.antt =====
-- internal/memory/service.go: the checks of the requests, and the views of the rows.
use jadeenvoy.Prelude.{
  ℕ, ◌*◌, String, Bool, true, false, not, ◌&&◌, List, map, Option, none, some, str_eq, ltb, len,
  if◌then◌else◌, strip_prefix,
}
use jadeenvoy.Errors.{message}
use jadeenvoy.Action.{Outside, Act, pure, fail, ◌>>=◌}
use jadeenvoy.Memory.Rows.{MemoryStoreRow, MemoryRow, MemoryVersionRow, MemoryDb, Operation}
use jadeenvoy.Memory.Table

-- Store, Memory and MemoryVersion: what the API shows of a row. An empty text stands for a field
-- that is left out.
pub record MemoryStoreView : Type 0 where
  pub type : String
  pub id : String
  pub name : String
  pub description : String
  pub created_at : ℕ
  pub updated_at : ℕ
  pub archived_at : Option ℕ

pub record MemoryView : Type 0 where
  pub type : String
  pub id : String
  pub memory_store_id : String
  pub path : String
  pub content : String
  pub content_sha256 : String
  pub content_size : ℕ
  pub created_at : ℕ
  pub updated_at : ℕ

pub record MemoryVersionView : Type 0 where
  pub type : String
  pub id : String
  pub memory_store_id : String
  pub memory_id : String
  pub operation : Operation
  pub path : Option String
  pub content : Option String
  pub content_sha256 : Option String
  pub content_size : Option ℕ
  pub created_at : ℕ
  pub redacted_at : Option ℕ

abbrev text_or_empty : Option String → String
text_or_empty none = ""
text_or_empty (some s) = s

unfoldable pub store_row_to_api : MemoryStoreRow → MemoryStoreView
store_row_to_api r = record {
  type = "memory_store";
  id = r.id;
  name = r.name;
  description = text_or_empty r.description;
  created_at = r.created_at;
  updated_at = r.updated_at;
  archived_at = r.archived_at;
}

unfoldable pub mem_row_to_api : MemoryRow → Bool → MemoryView
mem_row_to_api r include_content = record {
  type = "memory";
  id = r.id;
  memory_store_id = r.memory_store_id;
  path = r.path;
  content = if include_content then r.content else "";
  content_sha256 = r.content_sha256;
  content_size = r.content_size;
  created_at = r.created_at;
  updated_at = r.updated_at;
}

unfoldable pub version_row_to_api : MemoryVersionRow → Bool → MemoryVersionView
version_row_to_api r include_content = record {
  type = "memory_version";
  id = r.id;
  memory_store_id = r.memory_store_id;
  memory_id = r.memory_id;
  operation = r.operation;
  path = r.path;
  content = if include_content then r.content else none;
  content_sha256 = r.content_sha256;
  content_size = r.content_size;
  created_at = r.created_at;
  redacted_at = r.redacted_at;
}

abbrev pub max_memory_size : ℕ
max_memory_size = 100 * 1024

abbrev pub is_absolute : String → Bool
is_absolute p = elim (strip_prefix "/" p) [ none ↦ false | some s ↦ true ]

pub record UpsertMemoryRequest : Type 0 where
  pub path : String
  pub content : String

pub record UpdateMemoryRequest : Type 0 where
  pub path : String
  pub content : Option String

abbrev pub too_long : Option String → Bool
too_long none = false
too_long (some c) = ltb max_memory_size (len c)

module _ (env : Outside) (sha256_hex : String → String) where
  unfoldable pub create_store : String → String → String → Act MemoryDb MemoryStoreView
  create_store tenant name description =
      if str_eq name "" then fail (message "name is required") else (do
        r ←
            Table.create_memory_store env sha256_hex
              (record { tenant_id = tenant; name = name; description = description })
        pure (store_row_to_api r))

  unfoldable pub get_store : String → Act MemoryDb MemoryStoreView
  get_store id = do r ← Table.get_memory_store env sha256_hex id; pure (store_row_to_api r)

  unfoldable pub list_stores : String → ℕ → Act MemoryDb (List MemoryStoreView)
  list_stores tenant limit = do
    rows ← Table.list_memory_stores env sha256_hex tenant limit
    pure (map store_row_to_api rows)

  unfoldable pub delete_store : String → Act MemoryDb (Unit {0})
  delete_store id = Table.delete_memory_store env sha256_hex id

  unfoldable pub update_store : String → String → String → Act MemoryDb MemoryStoreView
  update_store id name description =
      if str_eq name "" then fail (message "name is required") else (do
        r ← Table.update_memory_store env sha256_hex id name description
        pure (store_row_to_api r))

  unfoldable pub archive_store : String → Act MemoryDb MemoryStoreView
  archive_store id = do r ← Table.archive_memory_store env sha256_hex id; pure (store_row_to_api r)

  unfoldable pub upsert_memory : String → String → UpsertMemoryRequest → Act MemoryDb MemoryView
  upsert_memory tenant store req =
      if str_eq req.path ""
      then fail (message "path is required")
      else if not (is_absolute req.path)
      then fail (message "path must be absolute (start with /)")
      else if ltb max_memory_size (len req.content)
      then fail (message "content exceeds 102400 bytes limit")
      else (do
        r ← Table.upsert_memory env sha256_hex (record {
          memory_store_id = store;
          tenant_id = tenant;
          path = req.path;
          content = req.content;
        })
        pure (mem_row_to_api r false))

  unfoldable pub get_memory : String → Act MemoryDb MemoryView
  get_memory id = do r ← Table.get_memory env sha256_hex id; pure (mem_row_to_api r true)

  unfoldable pub list_memories : String → String → ℕ → Act MemoryDb (List MemoryView)
  list_memories store prefix limit = do
    rows ← Table.list_memories env sha256_hex store prefix limit
    pure (map (λ r. mem_row_to_api r false) rows)

  unfoldable pub update_memory : String → UpdateMemoryRequest → Act MemoryDb MemoryView
  update_memory id req =
      if not (str_eq req.path "") && not (is_absolute req.path)
      then fail (message "path must be absolute (start with /)")
      else if too_long req.content
      then fail (message "content exceeds 102400 bytes limit")
      else (do
        r ←
            Table.update_memory env sha256_hex
              (record { id = id; path = req.path; content = req.content })
        pure (mem_row_to_api r true))

  unfoldable pub delete_memory : String → Act MemoryDb (Unit {0})
  delete_memory id = Table.delete_memory env sha256_hex id

  unfoldable pub list_memory_versions : String → String → ℕ → Act MemoryDb (List MemoryVersionView)
  list_memory_versions store memory limit = do
    rows ← Table.list_memory_versions env sha256_hex store memory limit
    pure (map (λ r. version_row_to_api r false) rows)

  unfoldable pub get_memory_version : String → Act MemoryDb MemoryVersionView
  get_memory_version id = do
    r ← Table.get_memory_version env sha256_hex id
    pure (version_row_to_api r true)

  unfoldable pub redact_memory_version : String → Act MemoryDb MemoryVersionView
  redact_memory_version id = do
    r ← Table.redact_memory_version env sha256_hex id
    pure (version_row_to_api r true)
