-- ===== src/World/Keeps.antt =====
-- Invariants of actions: one rule for each way to build an action. What an action did before an
-- error stays done, so an invariant is kept on the error path too.
use jadeenvoy.Prelude.{
  Bool, true, false, if◌then◌else◌, arith, ℕ, Option, first, none, refl, some, ◌≡◌,
}
use jadeenvoy.Errors.{Error, Result, ok, err}
use jadeenvoy.World.{
  Env, World, Ctx, M, ◌>>=◌, pure, fail, lift, gets, modify, ignore, db_call, attempt, ask, next,
  continue,
}

pub record Keeps {A : Type 0} (P : World → Type 0) (m : M A) : Type 0 where
  pub at : (w : World) → P w → P (m w).1

module _ {A : Type 0} {P : World → Type 0} where
  pub Keeps-pure : (a : A) → Keeps P (pure a)
  unfolding pure
  Keeps-pure a = record { at = λ w h. h }

  pub Keeps-fail : (e : Error) → Keeps P (fail {A = A} e)
  unfolding fail
  Keeps-fail e = record { at = λ w h. h }

  pub Keeps-lift : (r : Result A) → Keeps P (lift r)
  unfolding lift
  Keeps-lift r = record { at = λ w h. h }

  pub Keeps-gets : (f : World → A) → Keeps P (gets f)
  unfolding gets
  Keeps-gets f = record { at = λ w h. h }

  pub Keeps-ignore : (m : M A) → Keeps P m → Keeps P (ignore m)
  unfolding ignore
  Keeps-ignore m k = record { at = λ w h. k.at w h }

  pub Keeps-attempt : (m : M A) → Keeps P m → Keeps P (attempt m)
  unfolding attempt
  Keeps-attempt m k = record { at = λ w h. k.at w h }

  pub Keeps-ask : (f : ℕ → A) → ((w : World) → P w → P (next w)) → Keeps P (ask f)
  unfolding ask
  Keeps-ask f k = record { at = λ w h. k w h }

  pub Keeps-if : (b : Bool) (m n : M A) → Keeps P m → Keeps P n → Keeps P (if b then m else n)
  Keeps-if true m n km kn = km
  Keeps-if false m n km kn = kn

module _ {A : Type 0} {P : World → Type 0} where
  -- A branch may use how its test came out.
  pub Keeps-test :
      (b : Bool) (m n : M A)
      → (b ≡ true → Keeps P m)
      → (b ≡ false → Keeps P n)
      → Keeps P (if b then m else n)
  Keeps-test true m n km kn = km refl
  Keeps-test false m n km kn = kn refl

module _ {A B : Type 0} {P : World → Type 0} where
  pub Keeps-option :
      (o : Option A) (m : M B) (f : A → M B)
      → Keeps P m
      → ((a : A) → Keeps P (f a))
      → Keeps P (elim o [ none ↦ m | some a ↦ f a ])
  Keeps-option none m f km kf = km
  Keeps-option (some a) m f km kf = kf a

  pub Keeps-answer :
      (r : Result A) (good : A → M B) (bad : Error → M B)
      → ((a : A) → Keeps P (good a))
      → ((e : Error) → Keeps P (bad e))
      → Keeps P (elim r [ ok a ↦ good a | err e ↦ bad e ])
  Keeps-answer (ok a) good bad kg kb = kg a
  Keeps-answer (err e) good bad kg kb = kb e

module _ {P : World → Type 0} where
  pub Keeps-modify : (f : World → World) → ((w : World) → P w → P (f w)) → Keeps P (modify f)
  unfolding modify
  Keeps-modify f k = record { at = k }

  pub Keeps-db_call :
      (env : Env) (ctx : Ctx) → ((w : World) → P w → P (next w)) → Keeps P (db_call env ctx)
  unfolding db_call
  Keeps-db_call env ctx k = record { at = λ w h. ground (arith, k w h) }

module _ {A B : Type 0} {P : World → Type 0} where
  -- The rest of a block only runs on the way that did not fail.
  Keeps-continue :
      (rest : A → M B)
      → ((a : A) → Keeps P (rest a))
      → (r : Result A) (w : World) → P w
      → P (continue r rest w).1
  Keeps-continue rest k (ok a) w h = (k a).at w h
  Keeps-continue rest k (err e) w h = h

  pub Keeps-bind :
      (first : M A) (rest : A → M B)
      → Keeps P first
      → ((a : A) → Keeps P (rest a))
      → Keeps P (first >>= rest)
  unfolding ◌>>=◌
  Keeps-bind first rest k ks = record {
    at = λ w h. Keeps-continue rest ks (first w).0 (first w).1 (k.at w h);
  }
