-- ===== src/Action/When.antt =====
-- What an operation leaves when it returns without an error, one rule for each way to build it.
use jadeenvoy.Prelude.{ap, sym, Option, none, some, ◌≡◌, refl, Bool-cases, inl, inr}
use jadeenvoy.Errors.{Result, ok, err}
use jadeenvoy.Action.{
  Outside, State, Act, ◌>>=◌, exec, query, or_not_found, continue, written, next,
}

abbrev pub When : {S A : Type 0} → Result A × State S → (A → State S → Type 0) → Type 0
When (ok a, w) Q = Q a w
When (err e, w) Q = Unit

module _ {S A B : Type 0} where
  pub When-bind :
      (m : Act S A) (f : A → Act S B) (w : State S) (Q : B → State S → Type 0)
      → When (m w) (λ a w'. When (f a w') Q)
      → When ((m >>= f) w) Q
  When-bind m f w Q h = after (m w).0 (m w).1 h
    where
      after :
          (r : Result A) (w : State S)
          → When (r, w) (λ a w'. When (f a w') Q)
          → When (continue r f w) Q
      after (ok a) w h = h
      after (err e) w h = tt

module _ {S A : Type 0} where
  pub When-exec :
      (env : Outside) (f : S → Result (A × S)) (w : State S) (Q : A → State S → Type 0)
      → ((a : A) (s : S) → f w.db ≡ ok (a, s) → Q a (record (next w) { db = s }))
      → When (exec env f w) Q
  unfolding exec
  When-exec env f w Q h = elim (Bool-cases (env.db_fault w.tick)) [
    | inl fault ↦ rw fault tt
    | inr works ↦ rw works (after (f w.db) h)
  ]
    where
      after :
          (r : Result (A × S))
          → ((a : A) (s : S) → r ≡ ok (a, s) → Q a (record (next w) { db = s }))
          → When (written r w) Q
      after (ok (a, s)) h = h a s refl
      after (err e) h = tt

  pub When-query :
      (env : Outside) (f : S → A) (w : State S) (Q : A → State S → Type 0)
      → Q (f w.db) (next w)
      → When (query env f w) Q
  unfolding query
  When-query env f w Q h = elim (Bool-cases (env.db_fault w.tick)) [
    | inl fault ↦ rw fault tt
    | inr works ↦ rw works h
  ]

  pub When-or_not_found :
      (o : Option A) (w : State S) (Q : A → State S → Type 0)
      → ((a : A) → o ≡ some a → Q a w)
      → When (or_not_found o w) Q
  When-or_not_found none w Q h = tt
  When-or_not_found (some a) w Q h = h a refl

  -- An operation that leaves the tables alone gives what was there.
  pub When-any :
      (r : Result A × State S) (Q : A → State S → Type 0)
      → ((a : A) (w : State S) → Q a w)
      → When r Q
  When-any (ok a, w) Q h = h a w
  When-any (err e, w) Q h = tt

pub When-then :
    {S A : Type 0} {P Q : A → State S → Type 0} (r : Result A × State S)
    → When r P
    → ((a : A) (w : State S) → P a w → Q a w)
    → When r Q
When-then (ok a, w) h k = k a w h
When-then (err e, w) h k = tt

abbrev state_or : {S A : Type 0} → S → Result (A × S) → S
state_or d (ok (a, s)) = s
state_or d (err e) = d

-- What a statement that succeeds has written.
pub wrote :
    {S A : Type 0} {a b : A} {s t : S} → ◌≡◌ {A = Result (A × S)} (ok (a, s)) (ok (b, t)) → t ≡ s
wrote {s = s} h = sym (ap (state_or s) h)
