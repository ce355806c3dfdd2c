-- ===== src/Harness/Paths/Inside.antt =====
-- Where the paths lead that safeRelativePath of internal/harness/skills.go accepts.
use jadeenvoy.Prelude.{
  String, ◌≡◌, refl, Bool, true, false, List, [], ◌∷◌, arith, str_eq, str_eq_iff, if◌then◌else◌,
  ◌||◌, ◌==◌, Bool-cases, inl, inr, subst,
}
use Prim.Native.Char.{Char, code}
use Prim.Native.String.{[], ◌∷◌}
use jadeenvoy.Harness.Paths.{
  split_slash, replace_backslashes, is_plain, all_plain, safe_relative_path, put_first,
}

abbrev parent : List String → List String
parent [] = []
parent (d ∷ ds) = ds

-- The directory, innermost name first, that a file system reaches from `dir` by the names of a
-- path: "" and "." stay, ".." goes up.
abbrev pub walk : List String → List String → List String
walk dir [] = dir
walk dir (s ∷ ss) =
    let stay = walk dir ss in
    let up = walk (parent dir) ss in
    let down = walk (s ∷ dir) ss in
    if str_eq s "" || str_eq s "." then stay else if str_eq s ".." then up else down

-- One level down for each name.
abbrev pub descend : List String → List String → List String
descend dir [] = dir
descend dir (s ∷ ss) = descend (s ∷ dir) ss

walk-plain : (dir ss : List String) → all_plain ss ≡ true → walk dir ss ≡ descend dir ss
walk-plain dir [] h = refl
walk-plain dir (s ∷ ss) h = ground (arith, walk-plain (s ∷ dir) ss)

abbrev head : List String → String
head [] = ""
head (s ∷ ss) = s

abbrev tail : List String → List String
tail [] = []
tail (s ∷ ss) = ss

abbrev has_backslash : String → Bool
has_backslash [] = false
has_backslash (c ∷ s) = code c == 92 || has_backslash s

head-put_first : (c : Char) (ss : List String) → head (put_first c ss) ≡ c ∷ head ss
head-put_first c [] = refl
head-put_first c (s ∷ ss) = refl

tail-put_first : (c : Char) (ss : List String) → tail (put_first c ss) ≡ tail ss
tail-put_first c [] = refl
tail-put_first c (s ∷ ss) = refl

pub split-slash :
    (c : Char) (s : String) → code c == 47 ≡ true → split_slash (c ∷ s) ≡ "" ∷ split_slash s
unfolding split_slash
split-slash c s h = rw h refl

pub split-other :
    (c : Char) (s : String)
    → code c == 47 ≡ false
    → split_slash (c ∷ s) ≡ put_first c (split_slash s)
unfolding split_slash
split-other c s h = rw h refl

split_parts : (s : String) → split_slash s ≡ head (split_slash s) ∷ tail (split_slash s)
unfolding split_slash
split_parts [] = refl
split_parts (c ∷ s) = elim (Bool-cases (code c == 47)) [
  | inl h ↦ rw h refl
  | inr h ↦ rw (h, head-put_first, tail-put_first) (some_put c (split_slash s))
]
  where
    some_put : (c : Char) (ss : List String) → put_first c ss ≡ (c ∷ head ss) ∷ tail ss
    some_put c [] = refl
    some_put c (s ∷ ss) = refl

replace-other :
    (c : Char) (s : String)
    → code c == 92 ≡ false
    → replace_backslashes (c ∷ s) ≡ c ∷ replace_backslashes s
unfolding replace_backslashes
replace-other c [] h = refl
replace-other c (d ∷ s) h = rw h refl

replace-pair :
    (c d : Char) (s : String)
    → code c == 92 ≡ true
    → replace_backslashes (c ∷ d ∷ s)
      ≡ (if code d == 92 then "/" ∷ replace_backslashes s else c ∷ replace_backslashes (d ∷ s))
unfolding replace_backslashes
replace-pair c d s h = rw h refl

-- A first name without a backslash is not changed by the replacement.
head-replace :
    (s : String)
    → has_backslash (head (split_slash s)) ≡ false
    → head (split_slash (replace_backslashes s)) ≡ head (split_slash s)
head-replace [] h = unfold replace_backslashes split_slash in refl
head-replace (c ∷ s) h = elim (Bool-cases (code c == 47)) [
  | inl slash ↦
      rw
        (
          replace-other c s (ground arith),
          split-slash c (replace_backslashes s) slash,
          split-slash c s slash,
        )
        refl
  | inr other ↦
      let h' : has_backslash (c ∷ head (split_slash s)) ≡ false =
        rw (split-other c s other, head-put_first) at h in
      rw
        (
          replace-other c s (ground arith),
          split-other c (replace_backslashes s) other,
          split-other c s other,
          head-put_first,
          head-put_first,
          head-replace s (ground arith),
        )
        refl
]

str_eq-has_backslash :
    (s x : String) → has_backslash s ≡ true → has_backslash x ≡ false → str_eq s x ≡ false
str_eq-has_backslash s x h k = elim (Bool-cases (str_eq s x)) [
  | inl same ↦ ground (arith, subst (λ y. has_backslash y ≡ true) ((str_eq_iff s x).0 same) h)
  | inr other ↦ other
]

has_backslash-is_plain : (s : String) → has_backslash s ≡ true → is_plain s ≡ true
has_backslash-is_plain s h = ground (
  arith,
  str_eq-has_backslash s "" h refl,
  str_eq-has_backslash s "." h refl,
  str_eq-has_backslash s ".." h refl,
)

tail-plain : (ss : List String) → all_plain ss ≡ true → all_plain (tail ss) ≡ true
tail-plain [] h = refl
tail-plain (s ∷ ss) h = ground arith

abbrev KeepsTail : String → Type 0
KeepsTail s =
    all_plain (tail (split_slash (replace_backslashes s))) ≡ true
    → all_plain (tail (split_slash s)) ≡ true

whole :
    (s : String)
    → KeepsTail s
    → all_plain (split_slash (replace_backslashes s)) ≡ true
    → all_plain (split_slash s) ≡ true
whole s ih h =
    let parts : all_plain
          (head (split_slash (replace_backslashes s)) ∷ tail (split_slash (replace_backslashes s)))
        ≡ true =
      subst (λ l. all_plain l ≡ true) (split_parts (replace_backslashes s)) h in
    rw (split_parts s)
      (ground (arith, ih, head-replace s, has_backslash-is_plain (head (split_slash s))))

other_first : (c : Char) (s : String) → code c == 92 ≡ false → KeepsTail s → KeepsTail (c ∷ s)
other_first c s other ih h = elim (Bool-cases (code c == 47)) [
  | inl slash ↦
      rw (split-slash c s slash) (
        whole s ih (rw (replace-other c s other, split-slash c (replace_backslashes s) slash) at h))
  | inr plain ↦
      rw (split-other c s plain, tail-put_first)
        (ih (
          rw (replace-other c s other, split-other c (replace_backslashes s) plain, tail-put_first)
            at h))
]

backslash_first :
    (c d : Char) (s : String)
    → code c == 92 ≡ true
    → KeepsTail s
    → KeepsTail (d ∷ s)
    → KeepsTail (c ∷ d ∷ s)
backslash_first c d s back two one h =
    rw (split-other c (d ∷ s) (ground arith), tail-put_first)
      (elim (Bool-cases (code d == 92)) [
        | inl pair ↦
            rw (split-other d s (ground arith), tail-put_first)
              (tail-plain (split_slash s) (
                whole s two (
                  rw (replace-pair c d s back, pair, split-slash "/" (replace_backslashes s) refl)
                    at h)))
        | inr single ↦ one (
            rw
              (
                replace-pair c d s back,
                single,
                split-other c (replace_backslashes (d ∷ s)) (ground arith),
                tail-put_first,
              )
              at h)
      ])

tail-replace : (s : String) → KeepsTail s
tail-replace [] h = unfold split_slash in refl
tail-replace (c ∷ []) h = unfold replace_backslashes in h
tail-replace (c ∷ d ∷ s) h =
    let two = tail-replace s in
    let one = tail-replace (d ∷ s) in
    elim (Bool-cases (code c == 92)) [
      | inl back ↦ backslash_first c d s back two one h
      | inr other ↦ other_first c (d ∷ s) other one h
    ]

-- A path that safeRelativePath accepts leads one level down for each of its names, from any
-- directory: it never stays and never goes up.
pub safe_path_descends :
    (dir : List String) (p : String)
    → safe_relative_path p ≡ true
    → walk dir (split_slash p) ≡ descend dir (split_slash p)
unfolding safe_relative_path
safe_path_descends dir p h =
    walk-plain dir (split_slash p) (whole p (tail-replace p) (ground arith))
