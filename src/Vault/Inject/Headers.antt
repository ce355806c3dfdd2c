-- ===== src/Vault/Inject/Headers.antt =====
-- What a request carries after applyInjection of internal/vault/proxy.go.
use jadeenvoy.Prelude.{
  String, Bool, not, List, [], ◌∷◌, Option, none, some, ◌≡◌, str_eq, str_eq_iff, some_of,
  if◌then◌else◌, ◌<>◌, arith,
}
use jadeenvoy.Vault.Inject.{
  Header, apply_injection, del_each, header_del, header_get, header_set, injected, session_header,
  stripped_headers,
}

-- The values under a name.
abbrev pub values : String → Header → List String
values name [] = []
values name ((n, v) ∷ h) = let rest = values name h in if str_eq n name then v ∷ rest else rest

values-header_del :
    (name other : String) (h : Header)
    → values name (header_del other h) ≡ (if str_eq other name then [] else values name h)
unfolding header_del
values-header_del name other [] = ground arith
values-header_del name other ((n, v) ∷ h) = ground (
  arith,
  values-header_del name other h,
  str_eq_iff n name,
  str_eq_iff n other,
  str_eq_iff other name,
)

values-header_set :
    (name other value : String) (h : Header)
    → values name (header_set other value h)
      ≡ (if str_eq other name then value ∷ [] else values name h)
unfolding header_set
values-header_set name other value h = ground (arith, values-header_del name other h)

-- A header that is neither Authorization nor stripped nor the session's.
abbrev pub is_plain : String → Bool
is_plain name = not (some_of (λ n. str_eq n name) (session_header ∷ stripped_headers))

-- The values that are sent on under a name, when the request had these.
abbrev pub sent : String → Option String → List String → List String
sent name none vs = if str_eq session_header name then [] else vs
sent name (some token) vs =
    if str_eq "Authorization" name
    then ("Bearer " <> token) ∷ []
    else if is_plain name
    then vs
    else []

injected-values :
    (t : Option String) (h : Header) (name : String)
    → values name (injected t (header_del session_header h)) ≡ sent name t (values name h)
injected-values none h name = values-header_del name session_header h
injected-values (some token) h name =
    rw
      (
        values-header_set name "Authorization" ("Bearer " <> token)
            (del_each stripped_headers (header_del session_header h)),
        values-header_del name "Private-Token"
            (header_del "X-Api-Key" (header_del "Authorization" (header_del session_header h))),
        values-header_del name "X-Api-Key"
            (header_del "Authorization" (header_del session_header h)),
        values-header_del name "Authorization" (header_del session_header h),
        values-header_del name session_header h,
      )
      (ground arith)

module _ (inject : String → String → Option String) where
  abbrev pub session_of : Header → String → String
  session_of h session_id = if str_eq session_id "" then header_get session_header h else session_id

  -- Without a token for the session and the host, only the session header goes. With one, the only
  -- Authorization is the token's bearer, the stripped headers and that of the session are gone, and
  -- every other header has the values it had.
  pub apply_injection-values :
      (h : Header) (host session_id name : String)
      → values name (apply_injection inject h host session_id)
        ≡ sent name (inject (session_of h session_id) host) (values name h)
  unfolding apply_injection
  apply_injection-values h host session_id name =
      injected-values (inject (session_of h session_id) host) h name
