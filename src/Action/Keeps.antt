-- ===== src/Action/Keeps.antt =====
-- Invariants of the tables: one rule for each way to build an operation.
use jadeenvoy.Action.When.{When}
use jadeenvoy.Prelude.{
  ℕ, Bool, true, false, List, [], ◌∷◌, Option, none, some, if◌then◌else◌, Bool-cases, inl, inr,
}
use jadeenvoy.Errors.{Error, Result, ok, err}
use jadeenvoy.Action.{
  Outside, State, Act, pure, fail, lift, at_tick, or_not_found, ◌>>=◌, exec, query, each,
  some_affected, continue, written,
}

pub record Keeps {S A : Type 0} (P : S → Type 0) (m : Act S A) : Type 0 where
  pub at : (w : State S) → P w.db → P (m w).1.db

-- A statement keeps P if it does so when it succeeds.
abbrev pub Holds : {S A : Type 0} → (S → Type 0) → Result (A × S) → Type 0
Holds P (ok (a, s)) = P s
Holds P (err e) = Unit

module _ {S A : Type 0} {P : S → Type 0} where
  pub Keeps-pure : (a : A) → Keeps P (pure a)
  Keeps-pure a = record { at = λ w h. h }

  pub Keeps-fail : (e : Error) → Keeps P (fail {A = A} e)
  Keeps-fail e = record { at = λ w h. h }

  pub Keeps-lift : (r : Result A) → Keeps P (lift r)
  Keeps-lift r = record { at = λ w h. h }

  pub Keeps-at_tick : (f : ℕ → A) → Keeps P (at_tick f)
  Keeps-at_tick f = record { at = λ w h. h }

  pub Keeps-or_not_found : (o : Option A) → Keeps P (or_not_found o)
  Keeps-or_not_found none = record { at = λ w h. h }
  Keeps-or_not_found (some a) = record { at = λ w h. h }

  pub Keeps-query : (env : Outside) (f : S → A) → Keeps P (query env f)
  unfolding query
  Keeps-query env f = record { at = λ w h. h }

  pub Keeps-exec :
      (env : Outside) (f : S → Result (A × S))
      → ((s : S) → P s → Holds P (f s))
      → Keeps P (exec env f)
  unfolding exec
  Keeps-exec env f k = record {
    at = λ w h. elim (Bool-cases (env.db_fault w.tick)) [
      | inl fault ↦ rw fault h
      | inr works ↦ rw works (after w (f w.db) h (k w.db h))
    ];
  }
    where
      after : (w : State S) (r : Result (A × S)) → P w.db → Holds P r → P (written r w).1.db
      after w (ok (a, s)) h k = k
      after w (err e) h k = h

  pub Keeps-if : (b : Bool) (m n : Act S A) → Keeps P m → Keeps P n → Keeps P (if b then m else n)
  Keeps-if true m n km kn = km
  Keeps-if false m n km kn = kn

module _ {S A B : Type 0} {P : S → Type 0} where
  pub Keeps-bind :
      (m : Act S A) (f : A → Act S B) → Keeps P m → ((a : A) → Keeps P (f a)) → Keeps P (m >>= f)
  Keeps-bind m f km kf = record { at = λ w h. after (m w).0 (m w).1 (km.at w h) }
    where
      after : (r : Result A) (w : State S) → P w.db → P (continue r f w).1.db
      after (ok a) w h = (kf a).at w h
      after (err e) w h = h

  pub Keeps-option :
      (o : Option A) (m : Act S B) (f : A → Act S B)
      → Keeps P m
      → ((a : A) → Keeps P (f a))
      → Keeps P (elim o [ none ↦ m | some a ↦ f a ])
  Keeps-option none m f km kf = km
  Keeps-option (some a) m f km kf = kf a

module _ {S A B : Type 0} {P : S → Type 0} where
  pub Keeps-each : (f : A → Act S B) (xs : List A) → ((a : A) → Keeps P (f a)) → Keeps P (each f xs)
  unfolding each
  Keeps-each f [] k = Keeps-pure []
  Keeps-each f (x ∷ xs) k =
      Keeps-bind _ _ (k x) (λ y. Keeps-bind _ _ (Keeps-each f xs k) (λ ys. Keeps-pure (y ∷ ys)))

pub Keeps-some_affected : {S : Type 0} {P : S → Type 0} (n : Bool) → Keeps P (some_affected n)
Keeps-some_affected true = Keeps-pure tt
Keeps-some_affected false = Keeps-fail _

-- What an operation gives on tables where P holds is known to its rest.
abbrev pub Yields : {S A : Type 0} → (S → Type 0) → Act S A → (A → Type 0) → Type 0
Yields {S = S} P m Good = (w : State S) → P w.db → When (m w) (λ a w'. Good a)

pub Keeps-known :
    {S A B : Type 0} {P : S → Type 0} (m : Act S A) (Good : A → Type 0) (f : A → Act S B)
    → Keeps P m
    → Yields P m Good
    → ((a : A) → Good a → Keeps P (f a))
    → Keeps P (m >>= f)
Keeps-known {S = S} {A = A} {P = P} m Good f km y kf = record {
  at = λ w h. after (m w).0 (m w).1 (km.at w h) (y w h);
}
  where
    after :
        (r : Result A) (w : State S)
        → P w.db
        → When (r, w) (λ a w'. Good a)
        → P (continue r f w).1.db
    after (ok a) w h g = (kf a g).at w h
    after (err e) w h g = h

pub ruleset keep_rules = (
  Keeps-pure, Keeps-fail, Keeps-lift, Keeps-at_tick, Keeps-or_not_found, Keeps-query, Keeps-if,
  Keeps-bind, Keeps-some_affected,
)
