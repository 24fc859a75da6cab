-- ===== src/Errors.antt =====
-- Go's errors as values: internal/errorutil wraps one in another, and errors.As looks through.
use external_mirror_cache.Base.{
  ◌⊎◌, inl, inr, refl, ℕ, ◌≡◌, Bool, false, List, Option, none, some, Bytes,
}

pub data Error : Type 0 where
  -- *upstreamError, its status and URL (server.go)
  upstream : ℕ → Bytes → Error
  -- the sentinels of server.go and main.go
  invalid_path : Error
  negative_duration bucket_required : Error
  -- an error of a library or a service: whether it is a net.Error, whether it is an API error with
  -- the code that follows, and its text
  foreign : Bool → Option Bytes → Bytes → Error
  -- `errorutil.Wrapf(err, format, args...)`; `Wrap` is the case of no arguments
  wrapped : Bytes → List Bytes → Error → Error

pub data Result {ℓ} (A : Type ℓ) : Type ℓ where
  ok : A → Result A
  err : Error → Result A

-- errors.AsType[*upstreamError]
unfoldable pub as_upstream : Error → Option (ℕ × Bytes)
as_upstream (upstream status url) = some (status, url)
as_upstream (wrapped format args e) = as_upstream e
as_upstream _ = none

-- fallback.go: errors.As at net.Error
unfoldable pub is_connection_error : Error → Bool
is_connection_error (foreign is_net code text) = is_net
is_connection_error (wrapped format args e) = is_connection_error e
is_connection_error _ = false

-- errors.AsType[smithy.APIError], and its code
unfoldable pub api_error_code : Error → Option Bytes
api_error_code (foreign is_net code text) = code
api_error_code (wrapped format args e) = api_error_code e
api_error_code _ = none

pub ok-injective {ℓ} : {A : Type ℓ} (a b : A) → ok a ≡ ok b → a ≡ b
ok-injective a b e = cc

-- To split on a computed result and keep the equation.
pub Result-cases {ℓ} :
    {A : Type ℓ} (r : Result A) → ((a : A) × (r ≡ ok a)) ⊎ ((e : Error) × (r ≡ err e))
Result-cases (ok a) = inl (a, refl)
Result-cases (err e) = inr (e, refl)
