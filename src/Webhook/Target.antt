-- ===== src/Webhook/Target.antt =====
-- internal/webhook/ssrf.go: which targets a webhook may have.
use jadeenvoy.Errors.{Result, err, message, ok, wrap}
use jadeenvoy.Prelude.{
  Bool, List, String, [], get_elem?, if◌then◌else◌, leb, length, none, not, some, str_eq, take,
  true, ℕ, ◌&&◌, ◌==◌, ◌||◌, ◌∷◌,
}
use jadeenvoy.Webhook.Rows.{HookEnv, Ip, v4, v6}

-- The ranges of net.IP's tests for version 4.
unfoldable pub is_blocked_v4 : ℕ → ℕ → ℕ → ℕ → Bool
is_blocked_v4 a b c d =
    a == 127
    || a == 10
    || (a == 172 && leb 16 b && leb b 31)
    || (a == 192 && b == 168)
    || (a == 169 && b == 254)
    || (leb 224 a && leb a 239)
    || (a == 0 && b == 0 && c == 0 && d == 0)

abbrev all_zero : List ℕ → Bool
all_zero [] = true
all_zero (x ∷ xs) = x == 0 && all_zero xs

abbrev is_zeros : ℕ → List ℕ → Bool
is_zeros n xs = all_zero (take n xs) && leb n (length xs)

abbrev byte : ℕ → List ℕ → ℕ
byte n xs = elim (get_elem? xs n) [ none ↦ 0 | some b ↦ b ]

-- ::1 and ::, fc00::/7, fe80::/10, ff00::/8 of version 6
unfoldable pub is_blocked_v6 : List ℕ → Bool
is_blocked_v6 xs =
    (is_zeros 15 xs && leb (byte 15 xs) 1)
    || (leb 252 (byte 0 xs) && leb (byte 0 xs) 253)
    || (byte 0 xs == 254 && leb 128 (byte 1 xs) && leb (byte 1 xs) 191)
    || byte 0 xs == 255

-- isBlockedIP, through To4 for a mapped address
unfoldable pub is_blocked_ip : Ip → Bool
is_blocked_ip (v4 a b c d) = is_blocked_v4 a b c d
is_blocked_ip (v6 xs) =
    if is_zeros 10 xs && byte 10 xs == 255 && byte 11 xs == 255
    then is_blocked_v4 (byte 12 xs) (byte 13 xs) (byte 14 xs) (byte 15 xs)
    else is_blocked_v6 xs

unfoldable pub check_ips : List Ip → Result (Unit {0})
check_ips [] = ok tt
check_ips (ip ∷ ips) =
    let rest = check_ips ips in
    if is_blocked_ip ip then err (message "url resolves to a disallowed address") else rest

looked_up : Result (List Ip) → Result (Unit {0})
looked_up (ok ips) = check_ips ips
looked_up (err e) = err (wrap "cannot resolve host" e)

abbrev is_http : String → Bool
is_http scheme = str_eq scheme "http" || str_eq scheme "https"

-- validateWebhookURL at the call count `n`
unfoldable pub validate_webhook_url : HookEnv → ℕ → Bool → String → Result (Unit {0})
unfolding looked_up
validate_webhook_url env n allow_private raw = elim (env.parse_url raw) [
  | err e ↦ err (wrap "invalid url" e)
  | ok p ↦
      if not (is_http p.0)
      then err (message "url must be http or https")
      else if str_eq p.1 ""
      then err (message "url has no host")
      else if allow_private
      then ok tt
      else looked_up (env.lookup_ip n p.1)
]
