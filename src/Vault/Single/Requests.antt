-- ===== src/Vault/Single/Requests.antt =====
-- Sequences of requests to internal/vault/service.go and the places of the open credentials.
use jadeenvoy.Prelude.{List, [], ◌∷◌, All}
use jadeenvoy.Action.{Outside, State}
use jadeenvoy.Action.When.{When-any}
use jadeenvoy.Vault.Rows.{VaultDb, CredentialRow}
use jadeenvoy.Vault.Secrets.{Codecs, encrypt_credential_auth}
use jadeenvoy.Vault.Invariant.{IsInvariant}
use jadeenvoy.Vault.Handle.{VaultRequest, handle_vaults, handle_vaults-Keeps}
use jadeenvoy.Vault.Single.{
  IsSingle, archive_credential_row-IsSingle, delete_credential_row-IsSingle,
  delete_vault_row-IsSingle, insert_credential-IsSingle, insert_vault-IsSingle,
  update_credential_row-IsSingle, update_vault_row-IsSingle,
}

no_demand : (cs : List CredentialRow) → All (λ c. Unit {0}) cs
no_demand [] = tt
no_demand (c ∷ cs) = (tt, no_demand cs)

module _ (env : Outside) (lib : Codecs) where
  IsSingle-IsInvariant : IsInvariant lib IsSingle (λ t s. Unit)
  IsSingle-IsInvariant = record {
    vault_in = insert_vault-IsSingle;
    vault_up = update_vault_row-IsSingle;
    vault_out = delete_vault_row-IsSingle;
    row_in = λ r db o f h. insert_credential-IsSingle r db o h;
    row_up = λ t now i db f h. update_credential_row-IsSingle t now i db h;
    row_archived = archive_credential_row-IsSingle;
    row_out = delete_credential_row-IsSingle;
    fits_stored = λ db h. no_demand db.credentials;
    fits_new = λ a w. When-any (encrypt_credential_auth lib a w) _ (λ s w'. tt);
    fits_refreshed = λ n s g. tt;
  }

  -- Any sequence of requests, failing or not, keeps the ids of credentials different, and the open
  -- credentials of a vault for different hosts.
  pub handle_vaults-IsSingle :
      (rs : List VaultRequest) (w : State VaultDb)
      → IsSingle w.db
      → IsSingle (handle_vaults env lib rs w).db
  handle_vaults-IsSingle = handle_vaults-Keeps env lib IsSingle-IsInvariant
