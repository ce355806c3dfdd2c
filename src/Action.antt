-- ===== src/Action.antt =====
-- Operations on tables of the database, for the components that keep their own: a state of any
-- type, the count of the calls made, and what comes from outside of it. An error leaves the state
-- that the calls before it made.
pub mod Keeps
pub mod When
use jadeenvoy.Prelude.{ℕ, ◌+◌, String, Bool, List, [], ◌∷◌, Option, none, some, if◌then◌else◌}
use jadeenvoy.Errors.{Error, Result, ok, err, db_error, not_found}

-- NewID, time.Now().UTC().UnixMilli(), and whether the database refuses a call; the number is the
-- count of calls made so far.
pub record Outside : Type 0 where
  pub new_id : String → ℕ → String
  pub now_ms : ℕ → ℕ
  pub db_fault : ℕ → Bool

pub record State (S : Type 0) : Type 0 where
  pub db : S
  pub tick : ℕ

abbrev pub Act : Type 0 → Type 0 → Type 0
Act S A = State S → Result A × State S

module _ {S A : Type 0} where
  abbrev pub pure : A → Act S A
  pure a w = (ok a, w)

  abbrev pub fail : Error → Act S A
  fail e w = (err e, w)

  abbrev pub lift : Result A → Act S A
  lift r w = (r, w)

  -- A value of the clock or of NewID, read before the next call.
  abbrev pub at_tick : (ℕ → A) → Act S A
  at_tick f w = (ok (f w.tick), w)

  abbrev pub or_not_found : Option A → Act S A
  or_not_found none = fail not_found
  or_not_found (some a) = pure a

abbrev pub continue : {S A B : Type 0} → Result A → (A → Act S B) → Act S B
continue (ok a) f w = f a w
continue (err e) f w = (err e, w)

abbrev pub next : {S : Type 0} → State S → State S
next w = record w { tick = w.tick + 1 }

abbrev pub written : {S A : Type 0} → Result (A × S) → State S → Result A × State S
written (ok (a, s)) w = (ok a, record { db = s; tick = w.tick + 1 })
written (err e) w = (err e, next w)

infixl 5 ◌>>=◌ ◌>>◌
abbrev pub ◌>>=◌ : {S A B : Type 0} → Act S A → (A → Act S B) → Act S B
◌>>=◌ m f w = let (r, w') = m w in continue r f w'

abbrev pub ◌>>◌ : {S A B : Type 0} → Act S A → Act S B → Act S B
m >> k = m >>= λ _. k

module _ {S : Type 0} (env : Outside) where
  -- A statement that writes: the new tables and an answer, or an error of the database.
  unfoldable pub exec : {A : Type 0} → (S → Result (A × S)) → Act S A
  exec f w = if env.db_fault w.tick then (err db_error, next w) else written (f w.db) w

  -- A statement that reads.
  unfoldable pub query : {A : Type 0} → (S → A) → Act S A
  query f w = (if env.db_fault w.tick then err db_error else ok (f w.db), next w)

-- An operation on each element in turn, up to the first error.
unfoldable pub each : {S A B : Type 0} → (A → Act S B) → List A → Act S (List B)
each f [] = pure []
each f (x ∷ xs) = do y ← f x; ys ← each f xs; pure (y ∷ ys)

-- RowsAffected: 0 rows is ErrNotFound.
abbrev pub some_affected : {S : Type 0} → Bool → Act S (Unit {0})
some_affected n = if n then pure tt else fail not_found
