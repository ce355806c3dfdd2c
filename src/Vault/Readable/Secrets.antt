-- ===== src/Vault/Readable/Secrets.antt =====
-- What encryption and refreshing yield.
use jadeenvoy.Prelude.{
  String, false, ◌≡◌, refl, str_eq, str_eq_iff, Bool-cases, inl, inr, Option, none, some,
}
use jadeenvoy.Errors.{prefixed, Result, ok, err}
use jadeenvoy.Action.{State, lift, next}
use jadeenvoy.Action.When.{When, When-any, When-bind}
use jadeenvoy.Vault.Secrets.{
  Codecs, CredentialAuthInput, OauthRefresh, OauthSecret, RefreshReply, Sealed, and_then,
  check_expires, decrypt, decrypt_oauth_secret, encrypt, encrypt_credential_auth, new_expires_at,
  oauth_label, oauth_secret_from_input, read_answer, refresh_request, refresh_from_input,
  refreshed_secret, token_label, with_refresh, refresh_oauth,
}
use jadeenvoy.Vault.Readable.{IsFaithful, HoldsToken, HoldsSecret, Fits}

abbrev pub OfOk : {A : Type 0} → (A → Type 0) → Result A → Type 0
OfOk P (ok a) = P a
OfOk P (err e) = Unit

-- A chain of results gives P when its last step does.
OfOk-and_then :
    {A B : Type 0} (P : B → Type 0) (r : Result A) (f : A → Result B)
    → ((a : A) → OfOk P (f a))
    → OfOk P (and_then r f)
OfOk-and_then P (ok a) f h = h a
OfOk-and_then P (err e) f h = tt

OfOk-implies :
    {A : Type 0} (P Q : A → Type 0) (r : Result A) → OfOk P r → ((a : A) → P a → Q a) → OfOk Q r
OfOk-implies P Q (ok a) h f = f a h
OfOk-implies P Q (err e) h f = tt

pub When-lift :
    {S A : Type 0} (r : Result A) (w : State S) (Q : A → State S → Type 0)
    → OfOk (λ a. Q a w) r
    → When (r, w) Q
When-lift (ok a) w Q h = h
When-lift (err e) w Q h = tt

abbrev pub HasAccess : OauthSecret → Type 0
HasAccess s = str_eq s.access_token "" ≡ false

with_refresh-HasAccess :
    (a : CredentialAuthInput) (r : Option OauthRefresh)
    → str_eq a.access_token "" ≡ false
    → OfOk HasAccess (with_refresh a r)
with_refresh-HasAccess a none h = h
with_refresh-HasAccess a (some r) h = OfOk-and_then HasAccess (refresh_from_input r) _ (λ r'. h)

module _ (lib : Codecs) where
  secret_from_input-HasAccess :
      (a : CredentialAuthInput) → OfOk HasAccess (oauth_secret_from_input lib a)
  unfolding oauth_secret_from_input
  secret_from_input-HasAccess a = elim (Bool-cases (str_eq a.access_token "")) [
    | inl empty ↦ rw empty tt
    | inr given ↦ rw given (
        OfOk-and_then HasAccess
          (prefixed "auth.expires_at must be RFC3339: " (check_expires lib a.expires_at)) _
          (λ u. with_refresh-HasAccess a a.refresh given))
  ]

  refreshed-HasAccess :
      (now : _) (s : OauthSecret) (r : OauthRefresh) (out : RefreshReply)
      → OfOk HasAccess (refreshed_secret lib now s r out)
  unfolding refreshed_secret
  refreshed-HasAccess now s r out = elim (Bool-cases (str_eq out.access_token "")) [
    | inl empty ↦ rw empty tt
    | inr given ↦ rw given (OfOk-and_then HasAccess (new_expires_at lib now out) _ (λ e. given))
  ]

  pub refresh_oauth-When :
      {S : Type 0} (s : OauthSecret) (r : OauthRefresh) (w : State S)
      → s.refresh ≡ some r
      → When (refresh_oauth lib s w) (λ s' w'. HasAccess s')
  unfolding refresh_oauth refreshed_secret
  refresh_oauth-When {S = S} s r w e = rw e (
      When-bind {S = S} (λ v. (lib.post v.tick (refresh_request r), next v)) _ w _
        (When-any (lib.post w.tick (refresh_request r), next w) _
          (λ answer w1. When-bind {S = S} (lift (read_answer lib answer)) _ w1 _ (
            When-any (read_answer lib answer, w1) _
              (λ out w2.
                When-lift (refreshed_secret lib (lib.now_ns w2.tick) s r out) w2 _
                  (refreshed-HasAccess _ s r out))))))

  pub encrypt-When :
      {S : Type 0} (p label : String) (w : State S) (P : Sealed → Type 0)
      → ((n : String) → P (record { cipher = lib.seal n p label; nonce = n; label = label }))
      → When (encrypt lib p label w) (λ s w'. P s)
  unfolding encrypt
  encrypt-When {S = S} p label w P h = after (lib.nonce w.tick)
    where
      after :
          (r : Result String)
          → When {S = S}
              (
                and_then
                    (prefixed "nonce: " r)
                    (λ n. ok (record { cipher = lib.seal n p label; nonce = n; label = label })),
                next w,
              )
              (λ s w'. P s)
      after (ok n) = h n
      after (err e) = tt

  module _ (faithful : IsFaithful lib) where
    token-HoldsToken :
        (n p : String)
        → str_eq p "" ≡ false
        → HoldsToken lib
            (record { cipher = lib.seal n p token_label; nonce = n; label = token_label })
    unfolding decrypt
    token-HoldsToken n p h = (p, (rw (faithful.opens n p token_label) refl, h))

    pub secret-HoldsSecret :
        (n : String) (s : OauthSecret)
        → str_eq s.access_token "" ≡ false
        → HoldsSecret lib (record {
          cipher = lib.seal n (lib.secret_json s) oauth_label;
          nonce = n;
          label = oauth_label;
        })
    unfolding decrypt_oauth_secret decrypt
    secret-HoldsSecret n s h =
        (s, (rw (faithful.opens n (lib.secret_json s) oauth_label) (faithful.reads s), h))

    pub encrypt_auth-Fits :
        {S : Type 0} (a : CredentialAuthInput) (w : State S)
        → When (encrypt_credential_auth lib a w) (λ s w'. Fits lib a.type s)
    unfolding encrypt_credential_auth
    encrypt_auth-Fits {S = S} a w = elim (Bool-cases (str_eq a.type "static_bearer")) [
      | inl static ↦ elim (Bool-cases (str_eq a.token "")) [
        | inl empty ↦ rw (static, empty) tt
        | inr given ↦
            rw (static, given)
              (encrypt-When a.token token_label w (Fits lib a.type) (λ n.
                inl
                  ((str_eq_iff a.type "static_bearer").0 static, token-HoldsToken n a.token given)))
      ]
      | inr other ↦ elim (Bool-cases (str_eq a.type "mcp_oauth")) [
        | inr unknown ↦ rw (other, unknown) tt
        | inl oauth ↦
            rw (other, oauth)
              (When-bind {S = S} (lift (oauth_secret_from_input lib a))
                (λ s. encrypt lib (lib.secret_json s) oauth_label) w (λ s w'. Fits lib a.type s)
                (When-lift (oauth_secret_from_input lib a) w _ (
                  OfOk-implies _ _ _ (secret_from_input-HasAccess a) (λ s h.
                    encrypt-When (lib.secret_json s) oauth_label w (Fits lib a.type) (λ n.
                      inr ((str_eq_iff a.type "mcp_oauth").0 oauth, secret-HoldsSecret n s h))))))
      ]
    ]
