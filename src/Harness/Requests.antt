-- ===== src/Harness/Requests.antt =====
-- How many model requests an action makes at most.
use jadeenvoy.Broker.Silent.{OfCalls}
use jadeenvoy.Errors.{Result, err, ok, Error}
use jadeenvoy.Json.{Raw}
use jadeenvoy.Prelude.{Bool, List, String, arith, false, if◌then◌else◌, length, true, ℕ, ◌+◌, ◌≤◌}
use jadeenvoy.Provider.{ChatRequest}
use jadeenvoy.World.{M, World, attempt, ignore, ◌>>=◌, continue}
use jadeenvoy.World.Keeps.{Keeps}

pub record MakesAtMost {A : Type 0} (k : ℕ) (m : M A) : Type 0 where
  pub at : (w : World) → length (m w).1.requests ≤ k + length w.requests

-- No more than `n` requests so far.
abbrev pub UpTo : ℕ → List ChatRequest → List (String × Raw) → Type 0
UpTo n rs xs = length rs ≤ n

module _ {A : Type 0} where
  -- An action that keeps whatever holds of the calls makes no request.
  pub makes-none :
      (m : M A)
      → ((R : List ChatRequest → List (String × Raw) → Type 0) → Keeps (OfCalls R) m)
      → MakesAtMost 0 m
  makes-none m k = record {
    at = λ w. omega (arith, (k (UpTo (length w.requests))).at w (omega arith));
  }

  -- An action that makes no request, whatever tools it runs.
  pub makes-no_request : (m : M A) → ((n : ℕ) → Keeps (OfCalls (UpTo n)) m) → MakesAtMost 0 m
  makes-no_request m k = record {
    at = λ w. omega (arith, (k (length w.requests)).at w (omega arith));
  }

  pub makes-more : {a b : ℕ} (m : M A) → a ≤ b → MakesAtMost a m → MakesAtMost b m
  makes-more m le k = record { at = λ w. omega (arith, k.at w, le) }

  pub makes-attempt : {a : ℕ} (m : M A) → MakesAtMost a m → MakesAtMost a (attempt m)
  unfolding ◌>>=◌
  makes-attempt m k = record { at = λ w. k.at w }

  pub makes-ignore : {a : ℕ} (m : M A) → MakesAtMost a m → MakesAtMost a (ignore m)
  unfolding ◌>>=◌
  makes-ignore m k = record { at = λ w. k.at w }

  pub makes-if :
      {a : ℕ} (b : Bool) (m n : M A)
      → MakesAtMost a m
      → MakesAtMost a n
      → MakesAtMost a (if b then m else n)
  makes-if true m n x y = x
  makes-if false m n x y = y

module _ {A B : Type 0} where
  makes-rest :
      {b : ℕ} (rest : A → M B) (r : Result A) (w : World)
      → ((a : A) → MakesAtMost b (rest a))
      → length (continue r rest w).1.requests ≤ b + length w.requests
  makes-rest rest (ok a) w k = (k a).at w
  makes-rest rest (err e) w k = omega arith

  pub makes-bind :
      {a b : ℕ} (m : M A) (rest : A → M B)
      → MakesAtMost a m
      → ((x : A) → MakesAtMost b (rest x))
      → MakesAtMost (a + b) (m >>= rest)
  unfolding ◌>>=◌
  makes-bind m rest x y = record {
    at = λ w. omega (arith, makes-rest rest (m w).0 (m w).1 y, x.at w);
  }

  pub makes-answer :
      {k : ℕ} (good : A → M B) (bad : Error → M B)
      → ((a : A) → MakesAtMost k (good a))
      → ((e : Error) → MakesAtMost k (bad e))
      → (r : Result A) → MakesAtMost k (elim r [ ok a ↦ good a | err e ↦ bad e ])
  makes-answer good bad x y (ok a) = x a
  makes-answer good bad x y (err e) = y e
