-- ===== src/Prelude/Clashes.antt =====
-- Lists in which no two elements clash, as a unique index demands of the rows of a table.
use mathlib.Core.Path.{◌≡◌, refl}
use mathlib.Core.Bool.{Bool, false, ◌||◌}
use mathlib.Core.List.{List, [], ◌∷◌, ◌++◌, map}
use native.Mathlib.Omega.{arith}
use jadeenvoy.Prelude.Lists.{some_of, select}

pub some_of-never : {A : Type 0} (xs : List A) → some_of (λ x. false) xs ≡ false
some_of-never [] = refl
some_of-never (x ∷ xs) = some_of-never xs

module _ {A : Type 0} (p q : A → Bool) (weaker : (x : A) → p x ≡ false → q x ≡ false) where
  pub some_of-weaker : (xs : List A) → some_of p xs ≡ false → some_of q xs ≡ false
  some_of-weaker [] h = refl
  some_of-weaker (x ∷ xs) h = ground (arith, weaker x, some_of-weaker xs, h)

module _ {A : Type 0} (clash : A → A → Bool) where
  abbrev pub Apart : List A → Type 0
  Apart [] = Unit
  Apart (x ∷ xs) = (some_of (clash x) xs ≡ false) × Apart xs

  pub Apart-append :
      ((a b : A) → clash a b ≡ clash b a)
      → (xs : List A) (x : A) → some_of (clash x) xs ≡ false
      → Apart xs
      → Apart (xs ++ x ∷ [])
  Apart-append comm [] x free a = (refl, tt)
  Apart-append comm (y ∷ xs) x free a =
      ground (arith, some_of-append (clash y) xs, comm y x, a.0, Apart-append comm xs x, a.1)
    where
      some_of-append : (p : A → Bool) (xs : List A) → some_of p (xs ++ x ∷ []) ≡ some_of p xs || p x
      some_of-append p [] = ground arith
      some_of-append p (z ∷ xs) = ground (arith, some_of-append p xs)

  some_of-select :
      (p q : A → Bool) (xs : List A) → some_of p xs ≡ false → some_of p (select q xs) ≡ false
  some_of-select p q [] h = refl
  some_of-select p q (x ∷ xs) h = ground (arith, some_of-select p q xs)

  pub Apart-select : (q : A → Bool) (xs : List A) → Apart xs → Apart (select q xs)
  Apart-select q [] a = tt
  Apart-select q (x ∷ xs) a =
      ground (arith, some_of-select (clash x) q xs a.0, Apart-select q xs a.1)

  -- An update that makes no two rows clash that are not in the way.
  module _ (u : A → A) (in_way : A → Bool)
      (keeps : (a b : A)
        → in_way a ≡ false
        → in_way b ≡ false
        → clash a b ≡ false
        → clash (u a) (u b) ≡ false) where
    some_of-map :
        (x : A) (xs : List A)
        → in_way x ≡ false
        → some_of in_way xs ≡ false
        → some_of (clash x) xs ≡ false
        → some_of (clash (u x)) (map u xs) ≡ false
    some_of-map x [] i is h = refl
    some_of-map x (y ∷ xs) i is h = ground (arith, keeps x y i, some_of-map x xs i, is, h)

    pub Apart-map : (xs : List A) → some_of in_way xs ≡ false → Apart xs → Apart (map u xs)
    Apart-map [] is a = tt
    Apart-map (x ∷ xs) is a = ground (arith, some_of-map x xs, is, a.0, Apart-map xs, a.1)
