-- ===== src/Memory/Rows.antt =====
-- The three tables of internal/store/memory.go. Times are milliseconds.
use jadeenvoy.Prelude.{ℕ, String, List, Option}

pub record MemoryStoreRow : Type 0 where
  pub id : String
  pub tenant_id : String
  pub name : String
  pub description : Option String
  pub archived_at : Option ℕ
  pub created_at : ℕ
  pub updated_at : ℕ

pub record MemoryRow : Type 0 where
  pub id : String
  pub memory_store_id : String
  pub tenant_id : String
  pub path : String
  pub content : String
  pub content_sha256 : String
  pub content_size : ℕ
  pub created_at : ℕ
  pub updated_at : ℕ

-- The column `operation` with its CHECK.
pub data Operation : Type 0 where
  created modified deleted : Operation

pub record MemoryVersionRow : Type 0 where
  pub id : String
  pub memory_store_id : String
  pub memory_id : String
  pub tenant_id : String
  pub operation : Operation
  pub path : Option String
  pub content : Option String
  pub content_sha256 : Option String
  pub content_size : Option ℕ
  pub created_at : ℕ
  pub redacted_at : Option ℕ

-- The rows of each table in the order of their insertion.
pub record MemoryDb : Type 0 where
  pub stores : List MemoryStoreRow
  pub memories : List MemoryRow
  pub versions : List MemoryVersionRow

pub record CreateMemoryStoreInput : Type 0 where
  pub tenant_id : String
  pub name : String
  pub description : String

pub record CreateMemoryInput : Type 0 where
  pub memory_store_id : String
  pub tenant_id : String
  pub path : String
  pub content : String

pub record UpdateMemoryInput : Type 0 where
  pub id : String
  pub path : String
  pub content : Option String

pub record MemoryVersionInput : Type 0 where
  pub memory_store_id : String
  pub memory_id : String
  pub tenant_id : String
  pub operation : Operation
  pub path : String
  pub content : String
  pub content_sha256 : String
  pub content_size : ℕ
  pub created_at_ms : ℕ
