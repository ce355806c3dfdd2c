-- ===== src/Vault/Single.antt =====
-- The credentials of internal/store/vault.go: their ids, and the partial index
-- vault_credential_unique_host.
pub mod Requests
use jadeenvoy.Prelude.{
  ℕ, String, Bool, true, false, not, ◌≡◌, refl, ◌&&◌, ◌||◌, Apart, Apart-append, Apart-map,
  Apart-select, some_of-never, some_of-weaker, Bool-cases, inl, inr, str_eq, str_eq_iff, some_of,
  none, arith, if◌then◌else◌,
}
use jadeenvoy.Action.Keeps.{Holds}
use jadeenvoy.Vault.Rows.{VaultRow, CredentialRow, VaultDb, UpdateCredentialInput}
use jadeenvoy.Vault.Statements.{
  absent, archived, archive_credential_row, delete_credential_row, delete_vault_row,
  insert_credential, insert_vault, is_auth_type, is_open_credential, serves, update_credential_row,
  update_vault_row, update_when,
}
use jadeenvoy.Vault.Table.{changed_credential}

-- Two rows have the same id, or are open for the same host in the same vault.
abbrev pub rivals : CredentialRow → CredentialRow → Bool
rivals r c = str_eq c.id r.id || (absent r.archived_at && serves r.vault_id r.mcp_server_host c)

abbrev pub IsSingle : VaultDb → Type 0
IsSingle db = Apart rivals db.credentials

rivals_comm : (a b : CredentialRow) → rivals a b ≡ rivals b a
rivals_comm a b = ground (
  arith,
  str_eq_iff a.id b.id,
  str_eq_iff b.id a.id,
  str_eq_iff a.vault_id b.vault_id,
  str_eq_iff b.vault_id a.vault_id,
  str_eq_iff a.mcp_server_host b.mcp_server_host,
  str_eq_iff b.mcp_server_host a.mcp_server_host,
)

pub insert_vault-IsSingle :
    (r : VaultRow) (db : VaultDb) → IsSingle db → Holds IsSingle (insert_vault r db)
unfolding insert_vault
insert_vault-IsSingle r db h = elim (Bool-cases (some_of (λ v. str_eq v.id r.id) db.vaults)) [
  | inl taken ↦ rw taken tt
  | inr free ↦ rw free h
]

pub update_vault_row-IsSingle :
    (t id : String) (f : VaultRow → VaultRow) (db : VaultDb)
    → IsSingle db
    → Holds IsSingle (update_vault_row t id f db)
unfolding update_vault_row
update_vault_row-IsSingle t id f db h = h

pub delete_vault_row-IsSingle :
    (t id : String) (db : VaultDb) → IsSingle db → Holds IsSingle (delete_vault_row t id db)
unfolding delete_vault_row
delete_vault_row-IsSingle t id db h = Apart-select rivals _ db.credentials h

pub delete_credential_row-IsSingle :
    (t v id : String) (db : VaultDb)
    → IsSingle db
    → Holds IsSingle (delete_credential_row t v id db)
unfolding delete_credential_row
delete_credential_row-IsSingle t v id db h = Apart-select rivals _ db.credentials h

-- A row that is inserted is open.
pub insert_credential-IsSingle :
    (r : CredentialRow) (db : VaultDb)
    → r.archived_at ≡ none
    → IsSingle db
    → Holds IsSingle (insert_credential r db)
unfolding insert_credential
insert_credential-IsSingle r db o h =
    elim (Bool-cases (
      some_of (λ c. str_eq c.id r.id || serves r.vault_id r.mcp_server_host c) db.credentials
      || (not (some_of (λ v. str_eq v.id r.vault_id) db.vaults)
          || not (is_auth_type r.auth_type)))) [
            | inl bad ↦ rw bad tt
            | inr good ↦ rw good (
                Apart-append rivals rivals_comm db.credentials r
                  (some_of-weaker _ (rivals r) (λ c. weaker c) db.credentials
                    (ground (arith, good)))
                  h)
          ]
  where
    weaker :
        (c : CredentialRow)
        → (str_eq c.id r.id || serves r.vault_id r.mcp_server_host c) ≡ false
        → rivals r c ≡ false
    weaker c n = ground (arith, n)

rivals-archived :
    (now : ℕ) (a b : CredentialRow) (p q : Bool)
    → rivals a b ≡ false
    → rivals (if p then archived now a else a) (if q then archived now b else b) ≡ false
rivals-archived now a b true true r = ground (arith, r)
rivals-archived now a b true false r = ground (arith, r)
rivals-archived now a b false true r = ground (arith, r)
rivals-archived now a b false false r = r

pub archive_credential_row-IsSingle :
    (t v id : String) (now : ℕ) (db : VaultDb)
    → IsSingle db
    → Holds IsSingle (archive_credential_row t v id now db)
unfolding archive_credential_row
archive_credential_row-IsSingle t v id now db h =
    Apart-map rivals _ (λ c. false) (λ a b i j r. rivals-archived now a b _ _ r) db.credentials
      (some_of-never db.credentials) h

module _ (t : String) (now : ℕ) (i : UpdateCredentialInput) where
  abbrev hit : CredentialRow → Bool
  hit = is_open_credential t i.vault_id i.id

  -- Another open row with the new place.
  abbrev in_way : CredentialRow → Bool
  in_way c = serves i.vault_id i.mcp_server_host c && not (str_eq c.id i.id)

  rivals-changed :
      (a b : CredentialRow) (p q : Bool)
      → hit a ≡ p
      → hit b ≡ q
      → in_way a ≡ false
      → in_way b ≡ false
      → rivals a b ≡ false
      → rivals
          (if p then changed_credential now i a else a)
          (if q then changed_credential now i b else b)
        ≡ false
  unfolding changed_credential
  rivals-changed a b true true ha hb wa wb r =
      ground (arith, ha, hb, r, str_eq_iff a.id i.id, str_eq_iff b.id i.id, str_eq_iff b.id a.id)
  rivals-changed a b true false ha hb wa wb r = ground (
    arith,
    ha,
    hb,
    wb,
    r,
    str_eq_iff a.id i.id,
    str_eq_iff b.id i.id,
    str_eq_iff b.id a.id,
    str_eq_iff a.vault_id i.vault_id,
    str_eq_iff b.vault_id i.vault_id,
    str_eq_iff b.vault_id a.vault_id,
  )
  rivals-changed a b false true ha hb wa wb r = ground (
    arith,
    ha,
    hb,
    wa,
    r,
    str_eq_iff a.id i.id,
    str_eq_iff b.id i.id,
    str_eq_iff b.id a.id,
    str_eq_iff a.vault_id i.vault_id,
    str_eq_iff b.vault_id i.vault_id,
    str_eq_iff b.vault_id a.vault_id,
    str_eq_iff a.mcp_server_host i.mcp_server_host,
    str_eq_iff i.mcp_server_host a.mcp_server_host,
  )
  rivals-changed a b false false ha hb wa wb r = r

  rivals-missed :
      (a b : CredentialRow)
      → hit a ≡ false
      → hit b ≡ false
      → rivals a b ≡ false
      → rivals
          (update_when hit (changed_credential now i) a)
          (update_when hit (changed_credential now i) b)
        ≡ false
  rivals-missed a b ha hb r = rw (ha, hb) r

  pub update_credential_row-IsSingle :
      (db : VaultDb)
      → IsSingle db
      → Holds IsSingle (
          update_credential_row t i.vault_id i.id i.mcp_server_host i.auth_type
            (changed_credential now i)
            db)
  unfolding update_credential_row
  update_credential_row-IsSingle db h = elim (Bool-cases (some_of hit db.credentials)) [
    | inr missed ↦ rw missed (
        Apart-map rivals (update_when hit (changed_credential now i)) hit rivals-missed
          db.credentials missed h)
    | inl found ↦
        elim (Bool-cases (some_of in_way db.credentials || not (is_auth_type i.auth_type))) [
          | inl bad ↦ rw (found, bad) tt
          | inr good ↦
              rw (found, good)
                (Apart-map rivals (update_when hit (changed_credential now i)) in_way
                  (λ a b wa wb r. rivals-changed a b _ _ refl refl wa wb r) db.credentials
                  (ground (arith, good)) h)
        ]
  ]
