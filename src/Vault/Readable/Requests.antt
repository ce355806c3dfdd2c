-- ===== src/Vault/Readable/Requests.antt =====
-- Sequences of requests to internal/vault/service.go and the secrets they leave.
use jadeenvoy.Prelude.{List, refl, inr}
use jadeenvoy.Action.{Outside, State}
use jadeenvoy.Vault.Rows.{VaultDb}
use jadeenvoy.Vault.Secrets.{Codecs}
use jadeenvoy.Vault.Table
use jadeenvoy.Vault.Invariant.{IsInvariant}
use jadeenvoy.Vault.Handle.{VaultRequest, handle_vaults, handle_vaults-Keeps}
use jadeenvoy.Vault.Readable.{AllReadable, Fits, IsFaithful}
use jadeenvoy.Vault.Readable.Secrets.{encrypt_auth-Fits, secret-HoldsSecret}
use jadeenvoy.Vault.Readable.Statements.{
  archive_credential_row-AllReadable, delete_credential_row-AllReadable,
  delete_vault_row-AllReadable, insert_credential-AllReadable, insert_vault-AllReadable,
  update_credential_row-AllReadable, update_vault_row-AllReadable,
}

module _ (env : Outside) (lib : Codecs) (faithful : IsFaithful lib) where
  AllReadable-IsInvariant : IsInvariant lib (AllReadable lib) (Fits lib)
  unfolding Table.changed_credential
  AllReadable-IsInvariant = record {
    vault_in = insert_vault-AllReadable lib;
    vault_up = update_vault_row-AllReadable lib;
    vault_out = delete_vault_row-AllReadable lib;
    row_in = λ r db o f h. insert_credential-AllReadable lib r db f h;
    row_up = λ t now i db f h.
        update_credential_row-AllReadable lib t i.vault_id i.id i.mcp_server_host i.auth_type
          (Table.changed_credential now i) db (λ c. f) h;
    row_archived = archive_credential_row-AllReadable lib;
    row_out = delete_credential_row-AllReadable lib;
    fits_stored = λ db h. h;
    fits_new = encrypt_auth-Fits lib faithful;
    fits_refreshed = λ n s g. inr (refl, secret-HoldsSecret lib faithful n s g);
  }

  -- Where sealed texts open again and secrets are read from their JSON, any sequence of requests
  -- keeps every credential readable: a static_bearer opens to a nonempty token, an mcp_oauth to a
  -- secret with a nonempty access token.
  pub handle_vaults-AllReadable :
      (rs : List VaultRequest) (w : State VaultDb)
      → AllReadable lib w.db
      → AllReadable lib (handle_vaults env lib rs w).db
  handle_vaults-AllReadable = handle_vaults-Keeps env lib AllReadable-IsInvariant
