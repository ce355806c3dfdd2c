-- ===== src/Prelude/Every.antt =====
-- A predicate of every element, through the searches and sorts of a list.
use mathlib.Core.Path.{◌≡◌}
use mathlib.Core.Bool.{Bool, true}
use mathlib.Core.List.{List, [], ◌∷◌}
use mathlib.Core.Option.{Option, none, some}
use jadeenvoy.Prelude.Tests.{Bool-cases}
use mathlib.Core.Logic.{inl, inr}
use mathlib.Core.List.{Mem, mem-cons_self, mem-cons_of_mem}
use jadeenvoy.Prelude.Lists.{All, All-implies, first, select, insert_by, sort_by}

abbrev pub OfSome : {A : Type 0} → (A → Type 0) → Option A → Type 0
OfSome P none = Unit
OfSome P (some a) = P a

module _ {A : Type 0} where
  pub All-select : (P : A → Type 0) (q : A → Bool) (xs : List A) → All P xs → All P (select q xs)
  All-select P q [] a = tt
  All-select P q (x ∷ xs) a = elim (Bool-cases (q x)) [
    | inl stays ↦ rw stays (a.0, All-select P q xs a.1)
    | inr goes ↦ rw goes (All-select P q xs a.1)
  ]

  pub All-first : (P : A → Type 0) (q : A → Bool) (xs : List A) → All P xs → OfSome P (first q xs)
  All-first P q [] a = tt
  All-first P q (x ∷ xs) a = elim (Bool-cases (q x)) [
    | inl this ↦ rw this a.0
    | inr rest ↦ rw rest (All-first P q xs a.1)
  ]

  -- What is selected passes the test.
  pub select-All : (q : A → Bool) (xs : List A) → All (λ x. q x ≡ true) (select q xs)
  select-All q [] = tt
  select-All q (x ∷ xs) = elim (Bool-cases (q x)) [
    | inl stays ↦ rw stays (stays, select-All q xs)
    | inr goes ↦ rw goes (select-All q xs)
  ]

  All-insert_by :
      (P : A → Type 0) (before : A → A → Bool) (y : A) (xs : List A)
      → P y
      → All P xs
      → All P (insert_by before y xs)
  All-insert_by P before y [] h a = (h, tt)
  All-insert_by P before y (x ∷ xs) h a = elim (Bool-cases (before y x)) [
    | inl here ↦ rw here (h, a)
    | inr later ↦ rw later (a.0, All-insert_by P before y xs h a.1)
  ]

  pub All-sort_by :
      (P : A → Type 0) (before : A → A → Bool) (xs : List A) → All P xs → All P (sort_by before xs)
  All-sort_by P before [] a = tt
  All-sort_by P before (x ∷ xs) a =
      All-insert_by P before x (sort_by before xs) a.0 (All-sort_by P before xs a.1)

  pub All-both : (P Q : A → Type 0) (xs : List A) → All P xs → All Q xs → All (λ x. P x × Q x) xs
  All-both P Q [] p q = tt
  All-both P Q (x ∷ xs) p q = ((p.0, q.0), All-both P Q xs p.1 q.1)

  pub members : (xs : List A) → All (λ x. Mem x xs) xs
  members [] = tt
  members (x ∷ xs) = (mem-cons_self, All-implies _ _ xs (λ y h. mem-cons_of_mem x h) (members xs))
