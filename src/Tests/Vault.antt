-- ===== src/Tests/Vault.antt =====
-- The vaults at concrete inputs.
use jadeenvoy.Prelude.{
  String, false, ◌≡◌, refl, List, [], ◌∷◌, Option, none, some, OfSome, str_eq, str_eq_refl, ◌&&◌,
  ◌<>◌, decimal, len, if◌then◌else◌,
}
use jadeenvoy.Errors.{Result, ok, err, message, conflict}
use jadeenvoy.Action.{Outside, State, exec, query}
use jadeenvoy.Action.When.{When}
use jadeenvoy.Vault.Rows.{VaultDb}
use jadeenvoy.Vault.Secrets.{
  host_from_url, Codecs, check_expires, decrypt, decrypt_oauth_secret, encrypt,
  encrypt_credential_auth, new_expires_at, oauth_needs_refresh, oauth_secret_from_input,
  read_answer, refresh_from_input, refresh_oauth, refresh_request, refreshed_secret,
}
use jadeenvoy.Vault.Service.{
  CreateCredentialRequest, ResolvedCredential, add_credential, create_vault, resolve, resolve_rows,
  fresh_secret, persist_oauth_secret, credential_to_api, vault_to_api,
}
use jadeenvoy.Vault.Statements.{insert_vault, insert_credential, update_credential_row}
use jadeenvoy.Vault.Table
use jadeenvoy.Vault.Handle.{
  VaultRequest, ask_add, ask_create_vault, ask_resolve, ask_update_credential, handle_vault,
  handle_vaults,
}
use jadeenvoy.Vault.Inject.{Header, apply_injection, header_get}
use jadeenvoy.Vault.Inject.Headers.{values, apply_injection-values}
use jadeenvoy.Vault.Owned.{ComesFrom, IsOwn, resolve-ComesFrom}
use jadeenvoy.Vault.Readable.{AllReadable, IsFaithful}
use jadeenvoy.Vault.Readable.Requests.{handle_vaults-AllReadable}
use jadeenvoy.Vault.Single.{IsSingle}
use jadeenvoy.Vault.Single.Requests.{handle_vaults-IsSingle}
use jadeenvoy.Vault.Tokens.{Resolves, add_credential-resolve}
use jadeenvoy.Tests.Codec.{
  get, put, get-put, get_secret, get_refresh, put_secret, get_secret-put_secret,
}

abbrev outside : Outside
outside = record { new_id = λ p n. p <> decimal n; now_ms = λ n. 1000; db_fault = λ n. false }

unfoldable unseal : String → String → String → Result String
unseal n c l =
    let k = (get c).1 in
    if str_eq (get c).0 n && str_eq (get k).0 l
    then ok (get k).1
    else err (message "cipher: message authentication failed")

abbrev lib : Codecs
lib = record {
  nonce = λ n. ok (decimal n);
  seal = λ n p l. put n (put l p);
  unseal = unseal;
  secret_json = put_secret;
  read_secret = get_secret;
  url_hostname =
      λ u. if str_eq u "https://api.test/mcp" then ok "api.test" else err (message "no host");
  now_ns = λ n. 1000;
  parse_time = λ t. ok (len t);
  format_after = λ now d. "";
  post = λ n q. ok (200, "fresh");
  read_reply = λ body. ok (record {
    access_token = body;
    refresh_token = "";
    expires_in = 60;
    expires_at = "";
    scope = "";
  });
  trim_space = λ s. s;
  metadata_json = λ m. "{\"k\":\"v\"}";
  read_metadata = λ s. [];
}

lib-IsFaithful : IsFaithful lib
unfolding unseal
lib-IsFaithful = record {
  opens = λ n p l. rw (get-put n (put l p), get-put l p, str_eq_refl n, str_eq_refl l) refl;
  reads = get_secret-put_secret;
}

abbrev no_vaults : State VaultDb
no_vaults = record { db = record { vaults = []; credentials = [] }; tick = 0 }

abbrev bearer : String → CreateCredentialRequest
bearer token = record {
  display_name = "api";
  auth = record {
    type = "static_bearer";
    mcp_server_url = "https://api.test/mcp";
    token = token;
    access_token = "";
    expires_at = "";
    refresh = none;
  };
}

-- An access token that has expired, and how to get another.
abbrev oauth : CreateCredentialRequest
oauth = record {
  display_name = "";
  auth = record {
    type = "mcp_oauth";
    mcp_server_url = "https://api.test/mcp";
    token = "";
    access_token = "stale";
    expires_at = "2020";
    refresh = some (record {
      token_endpoint = "https://api.test/token";
      client_id = "";
      scope = "";
      refresh_token = "again";
      token_endpoint_auth = record { type = "none"; client_secret = "" };
    });
  };
}

abbrev one_vault : State VaultDb
one_vault =
    handle_vaults outside lib
      (ask_create_vault "t1" (record { display_name = "v"; metadata = [] }) ∷ []) no_vaults

-- A vault, a credential, one for the same host, and a change of the first one's type.
abbrev vault_requests : List VaultRequest
vault_requests =
    ask_create_vault "t1" (record { display_name = "v"; metadata = [] })
    ∷ ask_add "vlt0" "t1" (bearer "tok")
    ∷ ask_add "vlt0" "t1" (bearer "other")
    ∷ ask_update_credential "t1" "vlt0" "crd4" oauth
    ∷ ask_resolve "t1" ("vlt0" ∷ []) "api.test"
    ∷ []

handle_vaults-AllReadable_example :
    AllReadable lib (handle_vaults outside lib vault_requests no_vaults).db
handle_vaults-AllReadable_example =
    handle_vaults-AllReadable outside lib lib-IsFaithful vault_requests no_vaults tt

handle_vaults-IsSingle_example : IsSingle (handle_vaults outside lib vault_requests no_vaults).db
handle_vaults-IsSingle_example = handle_vaults-IsSingle outside lib vault_requests no_vaults tt

resolve-ComesFrom_example :
    When
      (resolve outside lib "t1" ("vlt0" ∷ []) "api.test" one_vault)
      (λ r w. OfSome (ComesFrom lib (IsOwn "t1" ("vlt0" ∷ []) "api.test" one_vault.db)) r)
resolve-ComesFrom_example = resolve-ComesFrom lib outside "t1" ("vlt0" ∷ []) "api.test" one_vault

add_credential-resolve_example :
    When
      (add_credential outside lib "vlt0" "t1" (bearer "tok") one_vault)
      (Resolves lib outside (λ n. refl) "t1" "vlt0" "api.test" "tok")
unfolding host_from_url
add_credential-resolve_example =
    add_credential-resolve lib outside (λ n. refl) lib-IsFaithful "vlt0" "t1" "api.test"
      (bearer "tok") one_vault refl refl refl

abbrev injects : String → String → Option String
injects session host = if str_eq session "ses1" && str_eq host "api.test" then some "tok" else none

abbrev request_header : Header
request_header =
    ("X-Je-Session", "ses1") ∷ ("Authorization", "Bearer dummy") ∷ ("Accept", "*/*") ∷ []

apply_injection-values_example :
    values "Authorization" (apply_injection injects request_header "api.test" "")
    ≡ "Bearer tok" ∷ []
unfolding header_get
apply_injection-values_example =
    apply_injection-values injects request_header "api.test" "" "Authorization"

abbrev answered : Result (Option ResolvedCredential) → Option String
answered (ok (some r)) = some r.token
answered _ = none

-- The bearer is stored, and its host is then taken.
resolved :
    let w = (add_credential outside lib "vlt0" "t1" (bearer "tok") one_vault).1 in
    (answered (resolve outside lib "t1" ("vlt0" ∷ []) "api.test" w).0 ≡ some "tok")
    × ((add_credential outside lib "vlt0" "t1" (bearer "other") w).0 ≡ err conflict)
unfolding handle_vaults handle_vault host_from_url create_vault add_credential resolve resolve_rows
    fresh_secret persist_oauth_secret Table.create_vault Table.get_vault Table.create_credential
    Table.get_credential Table.wrapped Table.list_active_credentials_by_host exec query insert_vault
    insert_credential Table.new_vault Table.new_credential encrypt_credential_auth encrypt decrypt
    put get unseal credential_to_api vault_to_api decimal
resolved = (refl, refl)

-- An access token that has expired is refreshed.
token_refreshed :
    let w = handle_vaults outside lib (ask_add "vlt0" "t1" oauth ∷ []) one_vault in
    answered (resolve outside lib "t1" ("vlt0" ∷ []) "api.test" w).0 ≡ some "fresh"
unfolding handle_vaults handle_vault host_from_url create_vault add_credential resolve resolve_rows
    fresh_secret persist_oauth_secret Table.create_vault Table.get_vault Table.create_credential
    Table.get_credential Table.wrapped Table.list_active_credentials_by_host exec query insert_vault
    insert_credential Table.new_vault Table.new_credential encrypt_credential_auth encrypt decrypt
    put get unseal credential_to_api vault_to_api decimal oauth_secret_from_input check_expires
    refresh_from_input put_secret get_secret get_refresh oauth_needs_refresh refresh_oauth
    refresh_request read_answer refreshed_secret new_expires_at decrypt_oauth_secret
    Table.update_credential update_credential_row Table.changed_credential
    Table.get_credential_scoped
token_refreshed = refl
