-- ===== src/Vault/Rows.antt =====
-- The tables of internal/store/vault.go. Times are milliseconds; bytes are texts.
use jadeenvoy.Prelude.{ℕ, String, List, Option}

pub record VaultRow : Type 0 where
  pub id : String
  pub tenant_id : String
  pub display_name : String
  pub metadata : String
  pub archived_at : Option ℕ
  pub created_at : ℕ
  pub updated_at : ℕ

pub record CredentialRow : Type 0 where
  pub id : String
  pub vault_id : String
  pub tenant_id : String
  pub display_name : String
  pub auth_type : String
  pub mcp_server_url : String
  pub mcp_server_host : String
  pub cipher : String
  pub cipher_nonce : String
  pub cipher_label : String
  pub archived_at : Option ℕ
  pub created_at : ℕ
  pub updated_at : ℕ

-- The rows of each table in the order of their insertion.
pub record VaultDb : Type 0 where
  pub vaults : List VaultRow
  pub credentials : List CredentialRow

pub record CreateCredentialInput : Type 0 where
  pub vault_id : String
  pub tenant_id : String
  pub display_name : String
  pub auth_type : String
  pub mcp_server_url : String
  pub mcp_server_host : String
  pub cipher : String
  pub cipher_nonce : String
  pub cipher_label : String

pub record UpdateCredentialInput : Type 0 where
  pub id : String
  pub vault_id : String
  pub tenant_id : String
  pub display_name : String
  pub auth_type : String
  pub mcp_server_url : String
  pub mcp_server_host : String
  pub cipher : String
  pub cipher_nonce : String
  pub cipher_label : String
