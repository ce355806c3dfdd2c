-- ===== src/Vault/Service/Views.antt =====
-- What the API shows of vaults and credentials, and its requests: pkg/apitypes/types.go, and
-- credentialToAPI of internal/vault/service.go.
use jadeenvoy.Prelude.{ℕ, String, List, Option}
use jadeenvoy.Vault.Rows.{CredentialRow}
use jadeenvoy.Vault.Secrets.{CredentialAuthInput}

pub record ResolvedCredential : Type 0 where
  pub credential_id : String
  pub auth_type : String
  pub token : String

-- CreateVaultRequest, CreateCredentialRequest, Vault and Credential of pkg/apitypes/types.go
pub record CreateVaultRequest : Type 0 where
  pub display_name : String
  pub metadata : List (String × String)

pub record CreateCredentialRequest : Type 0 where
  pub display_name : String
  pub auth : CredentialAuthInput

pub record VaultView : Type 0 where
  pub type : String
  pub id : String
  pub display_name : String
  pub metadata : List (String × String)
  pub created_at : ℕ
  pub updated_at : ℕ
  pub archived_at : Option ℕ

pub record CredentialView : Type 0 where
  pub type : String
  pub id : String
  pub vault_id : String
  pub display_name : String
  pub auth_type : String
  pub mcp_server_url : String
  pub created_at : ℕ
  pub updated_at : ℕ
  pub archived_at : Option ℕ

unfoldable pub credential_to_api : CredentialRow → CredentialView
credential_to_api r = record {
  type = "credential";
  id = r.id;
  vault_id = r.vault_id;
  display_name = r.display_name;
  auth_type = r.auth_type;
  mcp_server_url = r.mcp_server_url;
  created_at = r.created_at;
  updated_at = r.updated_at;
  archived_at = r.archived_at;
}
