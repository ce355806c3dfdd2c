-- ===== src/Vault/Readable/Statements.antt =====
-- The statements of internal/store/vault.go keep secrets readable.
use jadeenvoy.Prelude.{
  ℕ, String, Bool, not, ◌&&◌, ◌||◌, [], ◌∷◌, All-append, All-map, All-select, Bool-cases, inl, inr,
  some_of, str_eq,
}
use jadeenvoy.Action.Keeps.{Holds}
use jadeenvoy.Vault.Rows.{VaultRow, CredentialRow, VaultDb}
use jadeenvoy.Vault.Statements.{
  archived, archive_credential_row, delete_credential_row, delete_vault_row, insert_credential,
  insert_vault, is_auth_type, is_open_credential, serves, update_credential_row, update_vault_row,
  update_when,
}
use jadeenvoy.Vault.Secrets.{Codecs}
use jadeenvoy.Vault.Readable.{AllReadable, IsReadable}

update_when-keeps :
    {A : Type 0} (P : A → Type 0) (q : A → Bool) (f : A → A)
    → ((a : A) → P a → P (f a))
    → (a : A) → P a
    → P (update_when q f a)
update_when-keeps P q f k a h = elim (Bool-cases (q a)) [
  | inl hit ↦ rw hit (k a h)
  | inr miss ↦ rw miss h
]

module _ (lib : Codecs) where
  pub insert_vault-AllReadable :
      (r : VaultRow) (db : VaultDb)
      → AllReadable lib db
      → Holds (AllReadable lib) (insert_vault r db)
  unfolding insert_vault
  insert_vault-AllReadable r db h = elim (Bool-cases (some_of (λ v. str_eq v.id r.id) db.vaults)) [
    | inl taken ↦ rw taken tt
    | inr free ↦ rw free h
  ]

  pub update_vault_row-AllReadable :
      (t id : String) (f : VaultRow → VaultRow) (db : VaultDb)
      → AllReadable lib db
      → Holds (AllReadable lib) (update_vault_row t id f db)
  unfolding update_vault_row
  update_vault_row-AllReadable t id f db h = h

  pub delete_vault_row-AllReadable :
      (t id : String) (db : VaultDb)
      → AllReadable lib db
      → Holds (AllReadable lib) (delete_vault_row t id db)
  unfolding delete_vault_row
  delete_vault_row-AllReadable t id db h = All-select (IsReadable lib) _ db.credentials h

  pub insert_credential-AllReadable :
      (r : CredentialRow) (db : VaultDb)
      → IsReadable lib r
      → AllReadable lib db
      → Holds (AllReadable lib) (insert_credential r db)
  unfolding insert_credential
  insert_credential-AllReadable r db g h =
      elim (Bool-cases (
        some_of (λ c. str_eq c.id r.id || serves r.vault_id r.mcp_server_host c) db.credentials
        || (not (some_of (λ v. str_eq v.id r.vault_id) db.vaults)
            || not (is_auth_type r.auth_type)))) [
              | inl bad ↦ rw bad tt
              | inr good ↦ rw good (All-append (IsReadable lib) db.credentials (r ∷ []) h (g, tt))
            ]

  pub update_credential_row-AllReadable :
      (t v id host a : String) (f : CredentialRow → CredentialRow) (db : VaultDb)
      → ((c : CredentialRow) → IsReadable lib (f c))
      → AllReadable lib db
      → Holds (AllReadable lib) (update_credential_row t v id host a f db)
  unfolding update_credential_row
  update_credential_row-AllReadable t v id host a f db g h =
      elim (Bool-cases (
        some_of (is_open_credential t v id) db.credentials
        && (some_of (λ c. serves v host c && not (str_eq c.id id)) db.credentials
            || not (is_auth_type a)))) [
              | inl bad ↦ rw bad tt
              | inr good ↦ rw good (
                  All-map (IsReadable lib) _ db.credentials
                    (update_when-keeps (IsReadable lib) _ f (λ c k. g c)) h)
            ]

  pub archive_credential_row-AllReadable :
      (t v id : String) (now : ℕ) (db : VaultDb)
      → AllReadable lib db
      → Holds (AllReadable lib) (archive_credential_row t v id now db)
  unfolding archive_credential_row
  archive_credential_row-AllReadable t v id now db h =
      All-map (IsReadable lib) _ db.credentials
        (update_when-keeps (IsReadable lib) _ (archived now) (λ c k. k)) h

  pub delete_credential_row-AllReadable :
      (t v id : String) (db : VaultDb)
      → AllReadable lib db
      → Holds (AllReadable lib) (delete_credential_row t v id db)
  unfolding delete_credential_row
  delete_credential_row-AllReadable t v id db h = All-select (IsReadable lib) _ db.credentials h
