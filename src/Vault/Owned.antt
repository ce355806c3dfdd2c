-- ===== src/Vault/Owned.antt =====
-- Whose credential Resolve of internal/vault/service.go answers with.
use jadeenvoy.Prelude.{
  String, true, false, ◌≡◌, refl, List, [], ◌∷◌, All, All-both, All-implies, some_of, arith,
  All-select, All-sort_by, OfSome, Mem, members, select-All, Bool-cases, inl, inr, str_eq,
  str_eq_iff, Option, none, ℕ, some,
}
use jadeenvoy.Errors.{Result, ok, err}
use jadeenvoy.Action.{Outside, State, lift}
use jadeenvoy.Action.When.{When, When-any, When-bind, When-query, When-then}
use jadeenvoy.Vault.Rows.{CredentialRow, VaultDb}
use jadeenvoy.Vault.Secrets.{Codecs, decrypt, decrypt_oauth_secret}
use jadeenvoy.Vault.Statements.{absent}
use jadeenvoy.Vault.Table.{list_active_credentials_by_host, matches, newest}
use jadeenvoy.Vault.Service.{ResolvedCredential, fresh_secret, resolve, resolve_rows}

When-ok :
    {S A : Type 0} (r : Result A) (w : State S) (Q : A → State S → Type 0)
    → ((a : A) → r ≡ ok a → Q a w)
    → When (r, w) Q
When-ok (ok a) w Q h = h a refl
When-ok (err e) w Q h = tt

-- An open credential of the tenant for the host, in one of the vaults.
pub record IsOwn (tenant : String) (vaults : List String) (host : String) (db : VaultDb)
    (c : CredentialRow) : Type 0 where
  pub stored : Mem c db.credentials
  pub of_tenant : c.tenant_id ≡ tenant
  pub for_host : c.mcp_server_host ≡ host
  pub is_open : c.archived_at ≡ none
  pub in_vaults : some_of (λ v. str_eq c.vault_id v) vaults ≡ true

absent-none : (o : Option ℕ) → absent o ≡ true → o ≡ none
absent-none none h = refl
absent-none (some t) h = cc h

matches-IsOwn :
    (t : String) (vs : List String) (h : String) (db : VaultDb) (c : CredentialRow)
    → Mem c db.credentials
    → matches t vs h c ≡ true
    → IsOwn t vs h db c
matches-IsOwn t vs h db c m k = record {
  stored = m;
  of_tenant = (str_eq_iff c.tenant_id t).0 (ground (arith, k));
  for_host = (str_eq_iff c.mcp_server_host h).0 (ground (arith, k));
  is_open = absent-none c.archived_at (ground (arith, k));
  in_vaults = ground (arith, k);
}

module _ (lib : Codecs) where
  -- The answer comes from a credential with P, and the token of a static one is what it opens to.
  abbrev pub ComesFrom : (CredentialRow → Type 0) → ResolvedCredential → Type 0
  ComesFrom P rc =
      (c : CredentialRow) × (P c
        × ((rc.credential_id ≡ c.id)
            × (c.auth_type ≡ "static_bearer"
                → decrypt lib c.cipher c.cipher_nonce c.cipher_label ≡ ok rc.token)))

  module _ (env : Outside) where
    resolve_rows-ComesFrom :
        (P : CredentialRow → Type 0) (cs : List CredentialRow) (w : State VaultDb)
        → All P cs
        → When (resolve_rows env lib cs w) (λ r w'. OfSome (ComesFrom P) r)
    unfolding resolve_rows
    resolve_rows-ComesFrom P [] w a = tt
    resolve_rows-ComesFrom P (c ∷ cs) w a = elim (Bool-cases (str_eq c.auth_type "static_bearer")) [
      | inl static ↦ rw static (
          When-bind (lift (decrypt lib c.cipher c.cipher_nonce c.cipher_label)) _ w _ (
            When-ok (decrypt lib c.cipher c.cipher_nonce c.cipher_label) w _
              (λ token opened. (c, (a.0, (refl, λ e. opened))))))
      | inr other ↦ elim (Bool-cases (str_eq c.auth_type "mcp_oauth")) [
        | inr unknown ↦ rw (other, unknown) (resolve_rows-ComesFrom P cs w a.1)
        | inl oauth ↦
            rw (other, oauth)
              (When-bind (lift (decrypt_oauth_secret lib c.cipher c.cipher_nonce c.cipher_label)) _
                w _
                (When-any (lift (decrypt_oauth_secret lib c.cipher c.cipher_nonce c.cipher_label) w)
                  _
                  (λ secret w1. When-bind (fresh_secret env lib c secret) _ w1 _ (
                    When-any (fresh_secret env lib c secret w1) _
                      (λ fresh w2. (c, (a.0, (refl, λ e. never e other))))))))
      ]
    ]
      where
        never :
            {A : Type 0} {s : String} → s ≡ "static_bearer" → str_eq s "static_bearer" ≡ false → A
        never {s = s} e n = cc ((str_eq_iff s "static_bearer").1 e)

    list_active-IsOwn :
        (t : String) (vs : List String) (h : String) (w : State VaultDb)
        → When (list_active_credentials_by_host env t vs h w) (λ cs w'. All (IsOwn t vs h w.db) cs)
    unfolding list_active_credentials_by_host
    list_active-IsOwn t [] h w = tt
    list_active-IsOwn t (v ∷ vs) h w = When-query env _ w _ (
        All-sort_by (IsOwn t (v ∷ vs) h w.db) newest _ (
          All-implies _ _ _ (λ c k. matches-IsOwn t (v ∷ vs) h w.db c k.0 k.1)
            (All-both _ _ _ (All-select _ (matches t (v ∷ vs) h) w.db.credentials (members _))
              (select-All (matches t (v ∷ vs) h) w.db.credentials))))

    -- Whatever the tables hold, a credential that Resolve answers with is an open one of the tenant,
    -- for the host and in one of the vaults; the token of a static_bearer is what it opens to.
    pub resolve-ComesFrom :
        (tenant : String) (vaults : List String) (host : String) (w : State VaultDb)
        → When
            (resolve env lib tenant vaults host w)
            (λ r w'. OfSome (ComesFrom (IsOwn tenant vaults host w.db)) r)
    unfolding resolve
    resolve-ComesFrom t vs h w = When-bind (list_active_credentials_by_host env t vs h) _ w _ (
        When-then (list_active_credentials_by_host env t vs h w) (list_active-IsOwn t vs h w)
          (λ cs w' a. resolve_rows-ComesFrom (IsOwn t vs h w.db) cs w' a))
