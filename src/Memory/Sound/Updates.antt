-- ===== src/Memory/Sound/Updates.antt =====
-- UPDATE memory (internal/store/memory.go) on well-formed tables.
use jadeenvoy.Prelude.{
  Apart, ℕ, String, Bool, true, false, not, ◌&&◌, ◌||◌, List, [], ◌∷◌, Option, some, ◌≡◌, refl,
  str_eq, str_eq_iff, some_of, map, on_id, All, arith, Bool-cases, inl, inr, subst, sym,
}
use jadeenvoy.Memory.Rows.{MemoryRow}
use jadeenvoy.Memory.Statements.{find_memory, is_at, rewrite}
use jadeenvoy.Memory.Sound.{clash}

none-All :
    {A : Type 0} (p : A → Bool) (xs : List A) → some_of p xs ≡ false → All (λ x. p x ≡ false) xs
none-All p [] h = tt
none-All p (x ∷ xs) h = (ground arith, none-All p xs (ground arith))

head_free :
    {A : Type 0} (p : A → Bool) (x : A) (xs : List A) → some_of p (x ∷ xs) ≡ false → p x ≡ false
head_free p x xs h = ground arith

tail_free :
    {A : Type 0} (p : A → Bool) (x : A) (xs : List A)
    → some_of p (x ∷ xs) ≡ false
    → some_of p xs ≡ false
tail_free p x xs h = ground arith

both_false : {a b : Bool} → a ≡ false → b ≡ false → (a || b) ≡ false
both_false ha hb = rw (ha, hb) refl

apart_ids : (m n : MemoryRow) → clash m n ≡ false → str_eq n.id m.id ≡ false
apart_ids m n c = ground arith

str_eq_comm : (a b : String) → str_eq a b ≡ str_eq b a
str_eq_comm a b = ground (arith, str_eq_iff a b, str_eq_iff b a)

is_at_comm :
    (m : MemoryRow) (store path : String)
    → is_at store path m ≡ false
    → (str_eq store m.memory_store_id && str_eq path m.path) ≡ false
is_at_comm m store path h = rw (str_eq_comm store m.memory_store_id, str_eq_comm path m.path) h

-- With one row per id, the row that is found is every row of this id.
module _ (id : String) (row : MemoryRow) where
  abbrev IsIt : MemoryRow → Type 0
  IsIt m = str_eq m.id id ≡ true → m ≡ row

  no_other :
      (m : MemoryRow) (ms : List MemoryRow)
      → str_eq m.id id ≡ true
      → some_of (clash m) ms ≡ false
      → All IsIt ms
  no_other m [] h free = tt
  no_other m (n ∷ ms) h free = (
    λ same. ground (arith, str_eq_iff m.id id, str_eq_iff n.id id, str_eq_iff n.id m.id),
    no_other m ms h (ground arith),
  )

  found-IsIt : (ms : List MemoryRow) → Apart clash ms → find_memory id ms ≡ some row → All IsIt ms
  found-IsIt [] a h = tt
  found-IsIt (m ∷ ms) a h = elim (Bool-cases (str_eq m.id id)) [
    | inl this ↦ (
      λ same. let it : ◌≡◌ {A = Option MemoryRow} (some m) (some row) = rw this at h in cc,
      no_other m ms this a.0,
    )
    | inr not_this ↦ (λ same. ground arith, found-IsIt ms a.1 (rw not_this at h))
  ]

  module _ (path : MemoryRow → String) (content sum : String) (size now : ℕ) where
    abbrev changed : MemoryRow → MemoryRow
    changed = on_id (λ m. m.id) id (λ m. rewrite (path m) content sum size now m)

    abbrev blocks : MemoryRow → Bool
    blocks m = not (str_eq m.id id) && is_at row.memory_store_id (path row) m

    clash-changed :
        (m n : MemoryRow)
        → clash m n ≡ false
        → IsIt m
        → IsIt n
        → blocks m ≡ false
        → blocks n ≡ false
        → clash (changed m) (changed n) ≡ false
    clash-changed m n c ism isn bm bn = elim (Bool-cases (str_eq m.id id)) [
      | inl hm ↦ elim (Bool-cases (str_eq n.id id)) [
        | inl hn ↦ ground (arith, str_eq_iff m.id id, str_eq_iff n.id id, str_eq_iff n.id m.id)
        | inr hn ↦
            rw (hm, hn)
              (both_false (apart_ids m n c) (
                subst (λ r. is_at r.memory_store_id (path r) n ≡ false) (sym (ism hm))
                  (rw hn at bn)))
      ]
      | inr hm ↦ elim (Bool-cases (str_eq n.id id)) [
        | inl hn ↦
            rw (hm, hn)
              (both_false (apart_ids m n c) (
                subst
                  (λ r.
                    (str_eq r.memory_store_id m.memory_store_id && str_eq (path r) m.path) ≡ false)
                  (sym (isn hn)) (is_at_comm m row.memory_store_id (path row) (rw hm at bm))))
        | inr hn ↦ rw (hm, hn) c
      ]
    ]

    some_of-changed :
        (m : MemoryRow) (ms : List MemoryRow)
        → some_of (clash m) ms ≡ false
        → IsIt m
        → All IsIt ms
        → blocks m ≡ false
        → some_of blocks ms ≡ false
        → some_of (clash (changed m)) (map changed ms) ≡ false
    some_of-changed m [] c ism is bm bs = refl
    some_of-changed m (n ∷ ms) c ism isn bm bs =
        rw (clash-changed m n (head_free (clash m) n ms c) ism isn.0 bm (head_free blocks n ms bs))
          (some_of-changed m ms (tail_free (clash m) n ms c) ism isn.1 bm
            (tail_free blocks n ms bs))

    Apart-changed :
        (ms : List MemoryRow)
        → Apart clash ms
        → All IsIt ms
        → some_of blocks ms ≡ false
        → Apart clash (map changed ms)
    Apart-changed [] a is bs = tt
    Apart-changed (m ∷ ms) a is bs = (
      some_of-changed m ms a.0 is.0 is.1 (ground arith) (ground arith),
      Apart-changed ms a.1 is.1 (ground arith),
    )

    pub update-Apart :
        (ms : List MemoryRow)
        → Apart clash ms
        → find_memory id ms ≡ some row
        → some_of blocks ms ≡ false
        → Apart clash (map changed ms)
    update-Apart ms a found free = Apart-changed ms a (found-IsIt ms a found) free
