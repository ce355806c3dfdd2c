-- ===== src/Vault/Secrets.antt =====
-- The secrets of credentials in internal/vault: crypto.go's box, and the encryption, reading and
-- refreshing of service.go.
use jadeenvoy.Prelude.{
  go_quoted, ℕ, ◌+◌, ◌*◌, ◌%◌, ◌^◌, String, Bool, false, not, List, [], ◌∷◌, ◌++◌, ◌||◌, Option,
  none, some, str_eq, leb, ltb, if◌then◌else◌, ◌<>◌, decimal,
}
use jadeenvoy.Errors.{prefixed, Error, Result, ok, err, message}
use jadeenvoy.Action.{Act, pure, fail, lift, next, ◌>>=◌}

-- CredentialOAuthEndpointAuthIn, CredentialOAuthRefreshInput and CredentialAuthInput of
-- pkg/apitypes/types.go
pub record EndpointAuth : Type 0 where
  pub type : String
  pub client_secret : String

pub record OauthRefresh : Type 0 where
  pub token_endpoint : String
  pub client_id : String
  pub scope : String
  pub refresh_token : String
  pub token_endpoint_auth : EndpointAuth

pub record CredentialAuthInput : Type 0 where
  pub type : String
  pub mcp_server_url : String
  pub token : String
  pub access_token : String
  pub expires_at : String
  pub refresh : Option OauthRefresh

pub record OauthSecret : Type 0 where
  pub access_token : String
  pub expires_at : String
  pub refresh : Option OauthRefresh

-- The body of a token endpoint's answer; an expires_in below zero is read as zero, which the code
-- does not tell apart.
pub record RefreshReply : Type 0 where
  pub access_token : String
  pub refresh_token : String
  pub expires_in : ℕ
  pub expires_at : String
  pub scope : String

-- The request to a token endpoint: its form, and the pair of SetBasicAuth.
pub record RefreshRequest : Type 0 where
  pub url : String
  pub form : List (String × String)
  pub basic_auth : Option (String × String)

-- The libraries that internal/vault calls; a number is the count of calls made, instants are
-- nanoseconds. `seal` and `unseal` are the methods Seal and Open of AES-GCM under the key of the root
-- secret, with the nonce and the label; `url_hostname` is url.Parse with Hostname; `post` is the
-- exchange with a token endpoint, a status and a body; `format_after` adds a Duration, given as the 64
-- bits of an int64, to an instant.
pub record Codecs : Type 0 where
  pub nonce : ℕ → Result String
  pub seal : String → String → String → String
  pub unseal : String → String → String → Result String
  pub secret_json : OauthSecret → String
  pub read_secret : String → Result OauthSecret
  pub url_hostname : String → Result String
  pub now_ns : ℕ → ℕ
  pub parse_time : String → Result ℕ
  pub format_after : ℕ → ℕ → String
  pub post : ℕ → RefreshRequest → Result (ℕ × String)
  pub read_reply : String → Result RefreshReply
  pub trim_space : String → String
  pub metadata_json : List (String × String) → String
  pub read_metadata : String → List (String × String)

abbrev pub token_label : String
token_label = "vault.credential.token"

abbrev pub oauth_label : String
oauth_label = "vault.credential.oauth"

-- errors.New("unsupported auth type")
abbrev pub unsupported_auth_type : Error
unsupported_auth_type = message "unsupported auth type"

-- A ciphertext with its nonce and label.
pub record Sealed : Type 0 where
  pub cipher : String
  pub nonce : String
  pub label : String

abbrev pub and_then : {A B : Type 0} → Result A → (A → Result B) → Result B
and_then (ok a) f = f a
and_then (err e) f = err e

abbrev is_endpoint_auth : String → Bool
is_endpoint_auth t =
    str_eq t ""
    || (str_eq t "none" || (str_eq t "client_secret_basic" || str_eq t "client_secret_post"))

abbrev or_none : EndpointAuth → EndpointAuth
or_none a = if str_eq a.type "" then record a { type = "none" } else a

-- The checks of auth.Refresh in oauthSecretFromInput, and the default it fills in.
unfoldable pub refresh_from_input : OauthRefresh → Result OauthRefresh
refresh_from_input r =
    if str_eq r.token_endpoint ""
    then err (message "auth.refresh.token_endpoint is required")
    else if str_eq r.refresh_token ""
    then err (message "auth.refresh.refresh_token is required")
    else if not (is_endpoint_auth r.token_endpoint_auth.type)
    then err
        (message ("unsupported token_endpoint_auth.type " <> go_quoted r.token_endpoint_auth.type))
    else ok (record r { token_endpoint_auth = or_none r.token_endpoint_auth })

abbrev form_if : String → String → List (String × String)
form_if name value = if str_eq value "" then [] else (name, value) ∷ []

-- What refreshOAuth sends.
unfoldable pub refresh_request : OauthRefresh → RefreshRequest
refresh_request r = record {
  url = r.token_endpoint;
  form =
      ("grant_type", "refresh_token")
      ∷ ("refresh_token", r.refresh_token)
      ∷ (form_if "client_id" r.client_id
          ++ (form_if "scope" r.scope
              ++ (if str_eq r.token_endpoint_auth.type "client_secret_post"
                  then ("client_secret", r.token_endpoint_auth.client_secret) ∷ []
                  else [])));
  basic_auth =
      if str_eq r.token_endpoint_auth.type "client_secret_basic"
      then some (r.client_id, r.token_endpoint_auth.client_secret)
      else none;
}

abbrev text_or : String → String → String
text_or s d = if str_eq s "" then d else s

abbrev pub with_refresh : CredentialAuthInput → Option OauthRefresh → Result OauthSecret
with_refresh auth none =
    ok (record { access_token = auth.access_token; expires_at = auth.expires_at; refresh = none })
with_refresh auth (some r) = and_then (refresh_from_input r) (λ r'.
    ok (record {
      access_token = auth.access_token;
      expires_at = auth.expires_at;
      refresh = some r';
    }))

module _ (lib : Codecs) where
  -- The checks of auth.ExpiresAt
  unfoldable pub check_expires : String → Result (Unit {0})
  check_expires s = if str_eq s "" then ok tt else and_then (lib.parse_time s) (λ t. ok tt)

  unfoldable pub oauth_secret_from_input : CredentialAuthInput → Result OauthSecret
  oauth_secret_from_input auth =
      if str_eq auth.access_token ""
      then err (message "auth.access_token is required")
      else and_then (prefixed "auth.expires_at must be RFC3339: " (check_expires auth.expires_at))
          (λ u. with_refresh auth auth.refresh)

  unfoldable pub host_from_url : String → Result String
  host_from_url raw = and_then (prefixed "invalid mcp_server_url: " (lib.url_hostname raw)) (λ host.
      if str_eq host ""
      then err (message ("mcp_server_url has no host: " <> go_quoted raw))
      else ok host)

  unfoldable pub encrypt : {S : Type 0} → String → String → Act S Sealed
  encrypt plaintext label w = (
    and_then (prefixed "nonce: " (lib.nonce w.tick))
        (λ n. ok (record { cipher = lib.seal n plaintext label; nonce = n; label = label })),
    next w,
  )

  unfoldable pub decrypt : String → String → String → Result String
  decrypt cipher nonce label = prefixed "decrypt: " (lib.unseal nonce cipher label)

  unfoldable pub encrypt_credential_auth : {S : Type 0} → CredentialAuthInput → Act S Sealed
  encrypt_credential_auth auth =
      if str_eq auth.type "static_bearer"
      then (if str_eq auth.token ""
          then fail (message "auth.token is required")
          else encrypt auth.token token_label)
      else if str_eq auth.type "mcp_oauth"
      then (do
        secret ← lift (oauth_secret_from_input auth)
        encrypt (lib.secret_json secret) oauth_label)
      else fail unsupported_auth_type

  unfoldable pub decrypt_oauth_secret : String → String → String → Result OauthSecret
  decrypt_oauth_secret cipher nonce label = and_then (decrypt cipher nonce label) lib.read_secret

  -- One minute before the instant at which it expires.
  unfoldable pub oauth_needs_refresh : OauthSecret → ℕ → Bool
  oauth_needs_refresh secret now =
      if str_eq secret.expires_at "" then false else elim (lib.parse_time secret.expires_at) [
        | err e ↦ false
        | ok t ↦ leb t (now + 60000000000)
      ]

  -- The new value of secret.ExpiresAt
  unfoldable pub new_expires_at : ℕ → RefreshReply → Result String
  new_expires_at now out =
      if ltb 0 out.expires_in
      then ok (lib.format_after now (out.expires_in * 1000000000 % 2 ^ 64))
      else if str_eq out.expires_at ""
      then ok ""
      else and_then
          (prefixed "oauth refresh response expires_at must be RFC3339: "
            (lib.parse_time out.expires_at))
          (λ t. ok out.expires_at)

  -- secret with what the answer says
  unfoldable pub refreshed_secret :
      ℕ → OauthSecret → OauthRefresh → RefreshReply → Result OauthSecret
  refreshed_secret now secret r out =
      if str_eq out.access_token ""
      then err (message "oauth refresh response missing access_token")
      else and_then (new_expires_at now out) (λ expires. ok (record {
        access_token = out.access_token;
        expires_at = expires;
        refresh = some (record r {
          refresh_token = text_or out.refresh_token r.refresh_token;
          scope = text_or out.scope r.scope;
        });
      }))

  unfoldable pub read_answer : ℕ × String → Result RefreshReply
  read_answer (status, body) =
      if ltb status 200 || leb 300 status
      then err (
          message
            ("oauth refresh failed: status " <> (decimal status <> (": " <> lib.trim_space body))))
      else lib.read_reply body

  abbrev post_form : {S : Type 0} → RefreshRequest → Act S (ℕ × String)
  post_form q w = (lib.post w.tick q, next w)

  unfoldable pub refresh_oauth : {S : Type 0} → OauthSecret → Act S OauthSecret
  refresh_oauth secret = elim secret.refresh [
    | none ↦ pure secret
    | some r ↦ (do
      answer ← post_form (refresh_request r)
      out ← lift (read_answer answer)
      λ w. (refreshed_secret (lib.now_ns w.tick) secret r out, w))
  ]
