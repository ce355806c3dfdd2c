-- ===== src/Harness/Turn/Returns.antt =====
-- What an action leaves behind when it returns, one rule for each way to build it.
use jadeenvoy.Errors.{Result, err, ok}
use jadeenvoy.Prelude.{Bool, ap, arith, false, if◌then◌else◌, refl, subst, true, ◌≡◌}
use jadeenvoy.Store.Settled.{Always}
use jadeenvoy.World.{M, World, continue, pure, ◌>>=◌}

-- What holds when an action has returned.
pub record Leaves {A : Type 0} (m : M A) (Q : A → World → Type 0) : Type 0 where
  pub at : (w : World) (a : A) → (m w).0 ≡ ok a → Q a (m w).1

module _ {A B : Type 0} {Q : B → World → Type 0} where
  pub Leaves-bind : (m : M A) (f : A → M B) → ((a : A) → Leaves (f a) Q) → Leaves (m >>= f) Q
  unfolding ◌>>=◌
  Leaves-bind m f k = record { at = λ w b e. after (m w).0 (m w).1 b e }
    where
      after :
          (r : Result A) (w : World) (b : B) → (continue r f w).0 ≡ ok b → Q b (continue r f w).1
      after (ok a) w b e = (k a).at w b e
      after (err x) w b e = absurd (ground (arith, e))

module _ {A B : Type 0} {P : A → World → Type 0} {Q : B → World → Type 0} where
  -- The rest may use what the first part left.
  pub Leaves-step :
      (m : M A) (f : A → M B)
      → Leaves m P
      → ((a : A) (w : World) → P a w → (b : B) → (f a w).0 ≡ ok b → Q b (f a w).1)
      → Leaves (m >>= f) Q
  unfolding ◌>>=◌
  Leaves-step m f x k = record { at = λ w b e. after (m w).0 (m w).1 b (x.at w) e }
    where
      after :
          (r : Result A) (w : World) (b : B)
          → ((a : A) → r ≡ ok a → P a w)
          → (continue r f w).0 ≡ ok b
          → Q b (continue r f w).1
      after (ok a) w b p e = k a w (p a refl) b e
      after (err x) w b p e = absurd (ground (arith, e))

module _ {A : Type 0} where
  -- What `pure` returns is what it was given.
  pub at_pure :
      (Q : A → World → Type 0) (a : A) (w : World)
      → Q a w
      → (b : A) → (pure a w).0 ≡ ok b
      → Q b (pure a w).1
  unfolding ◌>>=◌
  at_pure Q a w q b e = subst (λ x. Q x w) (ap from_ok e) q
    where
      from_ok : Result A → A
      from_ok (ok x) = x
      from_ok (err x) = a

  pub Leaves-pure : {Q : A → World → Type 0} (a : A) → ((w : World) → Q a w) → Leaves (pure a) Q
  Leaves-pure {Q = Q} a q = record { at = λ w b e. at_pure Q a w (q w) b e }

  pub Leaves-always :
      {Q : A → World → Type 0} {P : World → Type 0} (m : M A)
      → Always P m
      → ((a : A) (w : World) → P w → Q a w)
      → Leaves m Q
  Leaves-always m p q = record { at = λ w a e. q a (m w).1 (p.at w) }

  pub Leaves-if :
      {Q : A → World → Type 0} (b : Bool) (m n : M A)
      → Leaves m Q
      → Leaves n Q
      → Leaves (if b then m else n) Q
  Leaves-if true m n x y = x
  Leaves-if false m n x y = y
