-- ===== src/Errors.antt =====
-- The errors of the program as values (`error`, %w wrapping, internal/provider/provider.go's
-- APIError, internal/store/event.go's ErrNotFound), and the result of a call that may fail.
use jadeenvoy.Prelude.{
  ◌≡◌, refl, ◌⊎◌, inl, inr, ℕ, String, Bool, true, false, Option, none, some, ◌||◌, str_eq, ◌==◌,
  leb, if◌then◌else◌,
}

-- provider.APIError; the status code is 0 when there was no HTTP response.
pub record ApiError : Type 0 where
  pub status_code : ℕ
  pub type : String
  pub message : String

-- `wrap` is fmt.Errorf with a %w verb.
pub data Error : Type 0 where
  canceled not_found no_rows db_error constraint conflict : Error
  api : ApiError → Error
  message : String → Error
  wrap : String → Error → Error

pub data Result {ℓ} (A : Type ℓ) : Type ℓ where
  ok : A → Result A
  err : Error → Result A

-- errors.Is(err, context.Canceled)
unfoldable pub is_canceled : Error → Bool
is_canceled canceled = true
is_canceled (wrap s e) = is_canceled e
is_canceled _ = false

-- errors.As(err, &apiErr)
unfoldable pub as_api_error : Error → Option ApiError
as_api_error (api e) = some e
as_api_error (wrap s e) = as_api_error e
as_api_error _ = none

is_transient_type : String → Bool
is_transient_type t =
    str_eq t "network"
    || str_eq t "timeout"
    || str_eq t "overloaded_error"
    || str_eq t "api_error"
    || str_eq t "rate_limit_error"

-- APIError.Retryable
unfoldable pub is_retryable : ApiError → Bool
unfolding is_transient_type
is_retryable e =
    if e.status_code == 429
    then true
    else if leb 500 e.status_code
    then true
    else if leb 400 e.status_code
    then false
    else is_transient_type e.type

-- retryable of harness.go
unfoldable pub retryable : Error → Bool
unfolding as_api_error is_retryable
retryable e = elim (as_api_error e) [ none ↦ false | some a ↦ is_retryable a ]

pub Result-cases {ℓ} :
    {A : Type ℓ} (r : Result A) → ((e : Error) × (r ≡ err e)) ⊎ ((a : A) × (r ≡ ok a))
Result-cases (ok a) = inr (a, refl)
Result-cases (err e) = inl (e, refl)

-- An error with the text of fmt.Errorf in front.
abbrev pub prefixed : {A : Type 0} → String → Result A → Result A
prefixed s (ok a) = ok a
prefixed s (err e) = err (wrap s e)
