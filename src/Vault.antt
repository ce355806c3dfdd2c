-- ===== src/Vault.antt =====
-- internal/vault and internal/store/vault.go: vaults, their credentials, and the injection of tokens
-- into outgoing requests.
pub mod Rows
pub mod Statements
pub mod Table
pub mod Secrets
pub mod Service
pub mod Inject
pub mod Readable
pub mod Invariant
pub mod Handle
pub mod Owned
pub mod Single
pub mod Tokens
