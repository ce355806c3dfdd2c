-- ===== src/Vault/Readable.antt =====
-- The stored secrets of internal/vault/service.go against the types of their credentials.
pub mod Secrets
pub mod Statements
pub mod Requests
use jadeenvoy.Prelude.{String, false, ◌≡◌, ◌⊎◌, All, str_eq}
use jadeenvoy.Errors.{ok}
use jadeenvoy.Vault.Rows.{CredentialRow, VaultDb}
use jadeenvoy.Vault.Secrets.{Codecs, OauthSecret, Sealed, decrypt, decrypt_oauth_secret}
use jadeenvoy.Vault.Service.{sealed_of}

-- What the code relies on: a sealed text is opened with the same nonce and label, and a secret is
-- read from its JSON.
pub record IsFaithful (lib : Codecs) : Type 0 where
  pub opens : (n p l : String) → lib.unseal n (lib.seal n p l) l ≡ ok p
  pub reads : (s : OauthSecret) → lib.read_secret (lib.secret_json s) ≡ ok s

module _ (lib : Codecs) where
  abbrev pub HoldsToken : Sealed → Type 0
  HoldsToken s =
      (token : String) × ((decrypt lib s.cipher s.nonce s.label ≡ ok token)
        × (str_eq token "" ≡ false))

  abbrev pub HoldsSecret : Sealed → Type 0
  HoldsSecret s =
      (secret : OauthSecret) × ((decrypt_oauth_secret lib s.cipher s.nonce s.label ≡ ok secret)
        × (str_eq secret.access_token "" ≡ false))

  -- A nonempty token for static_bearer, a secret with a nonempty access token for mcp_oauth.
  abbrev pub Fits : String → Sealed → Type 0
  Fits auth_type s =
      ((auth_type ≡ "static_bearer") × HoldsToken s) ⊎ ((auth_type ≡ "mcp_oauth") × HoldsSecret s)

  abbrev pub IsReadable : CredentialRow → Type 0
  IsReadable c = Fits c.auth_type (sealed_of c)

  abbrev pub AllReadable : VaultDb → Type 0
  AllReadable db = All IsReadable db.credentials
