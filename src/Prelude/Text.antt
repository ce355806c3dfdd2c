-- ===== src/Prelude/Text.antt =====
-- The functions of package strings that the program uses, on texts as lists of characters.
use Prim.Native.Char.{Char, code}
use Prim.Native.Nat.{ℕ, zero, suc, ◌/◌, ◌%◌, Ordering}
use Prim.Native.String.{String, [], ◌∷◌, ◌++◌, compare}
use mathlib.Core.Path.{◌≡◌, refl, ap, ◌∙◌}
use mathlib.Core.Bool.{Bool, true, false, ◌&&◌, ◌||◌}
use mathlib.Core.Option.{Option, none, some}
use native.Mathlib.Omega.{arith}
use text.Mathlib.TextLemmas.{nil-append, cons-append}
use jadeenvoy.Prelude.Tests.{◌==◌, if◌then◌else◌, leb, ltb}

-- strings.CutPrefix
unfoldable pub strip_prefix : String → String → Option String
strip_prefix [] s = some s
strip_prefix (c ∷ p) [] = none
strip_prefix (c ∷ p) (d ∷ s) =
    let rest = strip_prefix p s in if code c == code d then rest else none

abbrev put_front : Char → Option (String × String) → Option (String × String)
put_front c none = none
put_front c (some (a, b)) = some (c ∷ a, b)

-- strings.Cut at a separator that is not empty: the text before its first occurrence, and after.
unfoldable pub cut : String → String → Option (String × String)
unfolding strip_prefix
cut sep [] = none
cut sep (c ∷ s) =
    let rest = cut sep s in
    elim (strip_prefix sep (c ∷ s)) [ some after ↦ some ([], after) | none ↦ put_front c rest ]

-- One step of a search that fails.
cut-none :
    (c : Char) (s : String)
    → cut "__" (c ∷ s) ≡ none
    → (strip_prefix "__" (c ∷ s) ≡ none) × (cut "__" s ≡ none)
unfolding cut
cut-none c s h = ground arith

cut-step :
    (c : Char) (s : String)
    → strip_prefix "__" (c ∷ s) ≡ none
    → cut "__" (c ∷ s) ≡ put_front c (cut "__" s)
unfolding cut
cut-step c s h = ground arith

-- A separator in the middle starts no earlier than one at the end.
strip-join :
    (c : Char) (s tool : String)
    → strip_prefix "__" (c ∷ (s ++ "_")) ≡ none
    → strip_prefix "__" (c ∷ (s ++ ("__" ++ tool))) ≡ none
unfolding strip_prefix
strip-join c [] tool h = rw nil-append (ground arith)
strip-join c (d ∷ s) tool h =
    let h' : strip_prefix "__" (c ∷ d ∷ (s ++ "_")) ≡ none = rw cons-append at h in
    rw cons-append (ground arith)

-- Joining with a separator and cutting gives both parts back, if the separator's two characters do
-- not meet in the first part nor at its end.
pub cut-join :
    (server tool : String)
    → cut "__" (server ++ "_") ≡ none
    → cut "__" (server ++ ("__" ++ tool)) ≡ some (server, tool)
cut-join [] tool h = unfold cut in rw (nil-append, cons-append, cons-append, nil-append) refl
cut-join (c ∷ s) tool h =
    let (apart, rest) = cut-none c (s ++ "_") (rw cons-append at h) in
    rw cons-append (
      cut-step c (s ++ ("__" ++ tool)) (strip-join c s tool apart)
      ∙ ap (put_front c) (cut-join s tool rest))

pub strip-append : (p s : String) → strip_prefix p (p ++ s) ≡ some s
unfolding strip_prefix
strip-append [] s = rw nil-append refl
strip-append (c ∷ p) s = rw cons-append (ground (arith, strip-append p s))

-- unicode.IsSpace
abbrev is_space : ℕ → Bool
is_space n =
    (leb 9 n && leb n 13)
    || n == 32
    || n == 133
    || n == 160
    || n == 5760
    || (leb 8192 n && leb n 8202)
    || n == 8232
    || n == 8233
    || n == 8239
    || n == 8287
    || n == 12288

trim_left : String → String
trim_left [] = []
trim_left (c ∷ s) = let rest = trim_left s in if is_space (code c) then rest else c ∷ s

abbrev put_unless_space : Char → String → String
put_unless_space c [] = if is_space (code c) then [] else c ∷ []
put_unless_space c (d ∷ s) = c ∷ d ∷ s

trim_right : String → String
trim_right [] = []
trim_right (c ∷ s) = put_unless_space c (trim_right s)

-- strings.TrimSpace
unfoldable pub trim_space : String → String
unfolding trim_left trim_right
trim_space s = trim_right (trim_left s)

-- %d of a natural number, on fuel: each step divides by 10, so that n + 1 steps are enough.
abbrev digit : ℕ → String
digit n =
    if n == 0
    then "0"
    else if n == 1
    then "1"
    else if n == 2
    then "2"
    else if n == 3
    then "3"
    else if n == 4
    then "4"
    else if n == 5
    then "5"
    else if n == 6
    then "6"
    else if n == 7
    then "7"
    else if n == 8
    then "8"
    else "9"

decimal_from : ℕ → ℕ → String
decimal_from zero n = ""
decimal_from (suc fuel) n = elim (ltb n 10) [
  | true ↦ digit n
  | false ↦ decimal_from fuel (n / 10) ++ digit (n % 10)
]

unfoldable pub decimal : ℕ → String
unfolding decimal_from
decimal n = decimal_from (suc n) n

-- The number of bytes of a character in UTF-8.
abbrev pub byte_count : ℕ → ℕ
byte_count n = if ltb n 128 then 1 else if ltb n 2048 then 2 else if ltb n 65536 then 3 else 4

-- The order of texts, code point by code point, which is the order of their bytes.
abbrev pub str_leb : String → String → Bool
str_leb a b = elim (compare a b) [ Ordering.gt ↦ false | _ ↦ true ]

-- fmt's %q, of a text without quotes, backslashes and control characters
abbrev pub go_quoted : String → String
go_quoted s = "\"" ++ (s ++ "\"")
