-- ===== src/Tests/Codec.antt =====
-- Libraries for the runs of internal/vault: a text form of secrets, and a seal that hides nothing.
use jadeenvoy.Prelude.{String, ◌≡◌, refl, [], ◌∷◌, Option, none, some, str_eq, ◌==◌, if◌then◌else◌}
use Prim.Native.Char.{code}
use Prim.Native.String.{[], ◌∷◌}
use jadeenvoy.Errors.{Result, ok}
use jadeenvoy.Vault.Secrets.{OauthRefresh, OauthSecret}

-- A field in front of a text: each character after an x, and an e at the end.
unfoldable pub put : String → String → String
put [] k = "e" ∷ k
put (c ∷ s) k = "x" ∷ c ∷ put s k

unfoldable pub get : String → String × String
get [] = ("", "")
get (m ∷ []) = ("", "")
get (m ∷ c ∷ s) = let (t, k) = get s in if code m == 101 then ("", c ∷ s) else (c ∷ t, k)

pub get-put : (s k : String) → get (put s k) ≡ (s, k)
unfolding put get
get-put [] [] = refl
get-put [] (c ∷ k) = refl
get-put (c ∷ s) k = rw (get-put s k) refl

abbrev pub put_refresh : Option OauthRefresh → String
put_refresh none = put "" ""
put_refresh (some r) = put "r" (
    put r.token_endpoint (
      put r.client_id (
        put r.scope (
          put r.refresh_token
            (put r.token_endpoint_auth.type (put r.token_endpoint_auth.client_secret ""))))))

unfoldable pub put_secret : OauthSecret → String
put_secret s = put s.access_token (put s.expires_at (put_refresh s.refresh))

unfoldable pub get_refresh : String → Option OauthRefresh
get_refresh k =
    let k0 = (get k).1 in
    let k1 = (get k0).1 in
    let k2 = (get k1).1 in
    let k3 = (get k2).1 in
    let k4 = (get k3).1 in
    let k5 = (get k4).1 in
    if str_eq (get k).0 ""
    then none
    else some (record {
      token_endpoint = (get k0).0;
      client_id = (get k1).0;
      scope = (get k2).0;
      refresh_token = (get k3).0;
      token_endpoint_auth = record { type = (get k4).0; client_secret = (get k5).0 };
    })

unfoldable pub get_secret : String → Result OauthSecret
get_secret t =
    let k0 = (get t).1 in
    ok (record {
      access_token = (get t).0;
      expires_at = (get k0).0;
      refresh = get_refresh (get k0).1;
    })

get_refresh-put_refresh : (o : Option OauthRefresh) → get_refresh (put_refresh o) ≡ o
unfolding get_refresh
get_refresh-put_refresh none = rw (get-put "" "") refl
get_refresh-put_refresh (some r) =
    rw
      (
        get-put "r" _,
        get-put r.token_endpoint _,
        get-put r.client_id _,
        get-put r.scope _,
        get-put r.refresh_token _,
        get-put r.token_endpoint_auth.type _,
        get-put r.token_endpoint_auth.client_secret _,
      )
      refl

pub get_secret-put_secret : (s : OauthSecret) → get_secret (put_secret s) ≡ ok s
unfolding put_secret get_secret
get_secret-put_secret s =
    rw
      (
        get-put s.access_token (put s.expires_at (put_refresh s.refresh)),
        get-put s.expires_at (put_refresh s.refresh),
        get_refresh-put_refresh s.refresh,
      )
      refl
