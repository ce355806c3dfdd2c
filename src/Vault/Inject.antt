-- ===== src/Vault/Inject.antt =====
-- The injection of a token into a request: applyInjection, sessionFromProxyAuth and hostnameOnly of
-- internal/vault/proxy.go. A header is a list of names, in canonical form as in net/http, and
-- values.
pub mod Headers
use jadeenvoy.Prelude.{
  String, Bool, not, List, [], ◌∷◌, Option, none, some, str_eq, select, first, if◌then◌else◌, ◌<>◌,
  strip_prefix,
}
use Prim.Native.Char.{code}
use Prim.Native.String.{[], ◌∷◌}
use jadeenvoy.Prelude.{◌==◌}
use jadeenvoy.Errors.{Result, ok, err}

abbrev pub Header : Type 0
Header = List (String × String)

abbrev pub session_header : String
session_header = "X-Je-Session"

abbrev pub stripped_headers : List String
stripped_headers = "Authorization" ∷ "X-Api-Key" ∷ "Private-Token" ∷ []

abbrev pub named : String → String × String → Bool
named name (n, v) = str_eq n name

-- Header.Get, Header.Del and Header.Set
unfoldable pub header_get : String → Header → String
header_get name h = elim (first (named name) h) [ none ↦ "" | some (n, v) ↦ v ]

unfoldable pub header_del : String → Header → Header
header_del name h = select (λ p. not (named name p)) h

unfoldable pub header_set : String → String → Header → Header
header_set name value h = (name, value) ∷ header_del name h

abbrev pub del_each : List String → Header → Header
del_each [] h = h
del_each (n ∷ ns) h = del_each ns (header_del n h)

-- The text before the first colon, or all of it.
unfoldable pub before_colon : String → String
before_colon [] = []
before_colon (c ∷ s) = let rest = before_colon s in if code c == 58 then [] else c ∷ rest

-- With a token: the client's credentials go, and the bearer comes.
abbrev pub injected : Option String → Header → Header
injected none h = h
injected (some token) h =
    header_set "Authorization" ("Bearer " <> token) (del_each stripped_headers h)

-- The InjectFunc of the proxy: a token for a session and a host, if there is one.
module _ (inject : String → String → Option String) where
  unfoldable pub apply_injection : Header → String → String → Header
  apply_injection h host session_id =
      let session = if str_eq session_id "" then header_get session_header h else session_id in
      injected (inject session host) (header_del session_header h)

-- base64.StdEncoding.DecodeString, and net.SplitHostPort with the host that it gives.
module _ (decode : String → Result String) (split : String → Result String) where
  unfoldable pub session_from_proxy_auth : String → String
  session_from_proxy_auth header = elim (strip_prefix "Basic " header) [
    | none ↦ ""
    | some rest ↦ elim (decode rest) [ err e ↦ "" | ok creds ↦ before_colon creds ]
  ]

  unfoldable pub hostname_only : String → String
  hostname_only hostport = elim (split hostport) [ err e ↦ hostport | ok h ↦ h ]

  module _ (inject : String → String → Option String) where
    -- The header that handlePlain sends on: a request with an absolute URL.
    unfoldable pub plain_header : Header → String → Header
    plain_header h url_host =
        apply_injection inject (header_del "Proxy-Authorization" h) (hostname_only url_host)
          (session_from_proxy_auth (header_get "Proxy-Authorization" h))

    -- The header that handleConnect and proxyOne send on: a request inside a tunnel whose CONNECT had
    -- the header and the host given first.
    unfoldable pub tunnel_header : Header → String → Header → Header
    tunnel_header connect connect_host h =
        apply_injection inject h (hostname_only connect_host)
          (session_from_proxy_auth (header_get "Proxy-Authorization" connect))
