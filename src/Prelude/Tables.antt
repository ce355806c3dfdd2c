-- ===== src/Prelude/Tables.antt =====
-- Rows found by their key after an insertion, an update or a deletion.
use mathlib.Core.Path.{◌≡◌, refl}
use mathlib.Core.Bool.{Bool, true, false, not}
use mathlib.Core.Option.{Option, none, some}
use mathlib.Core.List.{List, [], ◌∷◌, ◌++◌, map}
use Prim.Native.String.{String}
use text.Mathlib.Text.{◌==◌ as str_eq}
use text.Mathlib.TextEquality.{eq_iff as str_eq_iff}
use native.Mathlib.Omega.{arith}
use jadeenvoy.Prelude.Tests.{if◌then◌else◌}
use jadeenvoy.Prelude.Lists.{first, select}

-- UPDATE … WHERE id = ?
abbrev pub on_id : {A : Type 0} → (A → String) → String → (A → A) → A → A
on_id key id f r = if str_eq (key r) id then f r else r

abbrev pub or_else : {A : Type 0} → Option A → Option A → Option A
or_else none o = o
or_else (some a) o = some a

abbrev pub apply_if : {A : Type 0} → (A → A) → Bool → Option A → Option A
apply_if f false o = o
apply_if f true none = none
apply_if f true (some a) = some (f a)

-- The last element that passes a test.
abbrev pub last : {A : Type 0} → (A → Bool) → List A → Option A
last p [] = none
last p (x ∷ xs) = or_else (last p xs) (if p x then some x else none)

module _ {A : Type 0} where
  pub first-append :
      (p : A → Bool) (xs : List A) (x : A)
      → first p (xs ++ x ∷ []) ≡ or_else (first p xs) (if p x then some x else none)
  first-append p [] x = refl
  first-append p (y ∷ xs) x = ground (arith, first-append p xs x)

  pub last-append :
      (p : A → Bool) (xs : List A) (x : A)
      → last p (xs ++ x ∷ []) ≡ (if p x then some x else last p xs)
  last-append p [] x = ground arith
  last-append p (y ∷ xs) x = ground (arith, last-append p xs x)

  -- A test that an update does not change.
  pub last-map :
      (p : A → Bool) (f : A → A) (xs : List A)
      → ((x : A) → p (f x) ≡ p x)
      → last p (map f xs) ≡ apply_if f true (last p xs)
  last-map p f [] h = refl
  last-map p f (y ∷ xs) h = ground (arith, last-map p f xs h, h y)

  module _ (key : A → String) where
    pub first-update :
        (id j : String) (f : A → A) (xs : List A)
        → ((x : A) → key (f x) ≡ key x)
        → first (λ r. str_eq (key r) id) (map (on_id key j f) xs)
          ≡ apply_if f (str_eq j id) (first (λ r. str_eq (key r) id) xs)
    first-update id j f [] h = ground arith
    first-update id j f (y ∷ xs) h = ground (
      arith,
      first-update id j f xs h,
      h y,
      str_eq_iff (key y) id,
      str_eq_iff (key y) j,
      str_eq_iff j id,
    )

    pub first-remove :
        (id j : String) (xs : List A)
        → first (λ r. str_eq (key r) id) (select (λ r. not (str_eq (key r) j)) xs)
          ≡ (if str_eq j id then none else first (λ r. str_eq (key r) id) xs)
    first-remove id j [] = ground arith
    first-remove id j (y ∷ xs) =
        ground (
          arith,
          first-remove id j xs,
          str_eq_iff (key y) id,
          str_eq_iff (key y) j,
          str_eq_iff j id,
        )

    pub first-key :
        (id : String) (xs : List A) (x : A)
        → first (λ r. str_eq (key r) id) xs ≡ some x
        → key x ≡ id
    first-key id [] x h = ground arith
    first-key id (y ∷ xs) x h = ground (arith, first-key id xs x, str_eq_iff (key y) id)
