-- ===== src/Oci/Transport/Wire.antt =====
-- oci_auth.go: what the transport keeps, and what it talks to. The calls of the base transport are
-- kept newest first, and each answer may depend on all before it.
use external_mirror_cache.Base.{ℕ, List, [], ◌∷◌, Option, Bytes, nat_eq, bytes_eq}
use external_mirror_cache.Base.Int.{ℤ}
use external_mirror_cache.Errors.{Error, wrapped, Result, ok, err}
use external_mirror_cache.Go.Strings.{Std}
use external_mirror_cache.Go.Header.{Header}
use external_mirror_cache.Oci.Challenge.{Challenge, challenge_eq}
use external_mirror_cache.Oci.Tokens.{Time, TokenCache}

pub record Request : Type 0 where
  pub method : Bytes
  pub host : Bytes
  pub path : Bytes
  pub header : Header

pub record Response : Type 0 where
  pub status : ℕ
  pub header : Header
  pub body : Bytes

-- A realm that url.Parse accepts: its scheme, and its text once parameters are set in its query.
pub record ParsedRealm : Type 0 where
  pub scheme : Bytes
  pub with_query : List (Bytes × Bytes) → Bytes

-- tokenResponse; `expires_in` is an int64, zero where it is absent.
pub record TokenResponse : Type 0 where
  pub token : Bytes
  pub access_token : Bytes
  pub expires_in : ℤ

pub data Call : Type 0 where
  -- the caller's request, perhaps with a token
  forwarded : Request → Call
  -- a GET to a token endpoint
  token_requested : Bytes → Call
  clock : Call

pub record Network : Type 0 where
  pub std : Std
  pub round_trip_base : List Call → Request → Result Response
  pub token_round_trip : List Call → Bytes → Result Response
  pub time_now : List Call → Time
  -- url.Parse, http.NewRequest and the JSON decoder
  pub parse_realm : Bytes → Result ParsedRealm
  pub new_request_error : Bytes → Option Error
  pub decode_token : Bytes → Result TokenResponse

pub record ChallengeEntry : Type 0 where
  pub challenge : Challenge
  pub expiry : Time

pub record State : Type 0 where
  pub challenges : List (Bytes × ChallengeEntry)
  pub tokens : TokenCache
  pub calls : List Call

abbrev pub M {ℓ} : Type ℓ → Type ℓ
M A = State → A × State

abbrev pub pure {ℓ} : {A : Type ℓ} → A → M A
pure a s = (a, s)

infixl 5 ◌>>=◌ ◌>>◌
abbrev pub ◌>>=◌ {ℓ κ} : {A : Type ℓ} {B : Type κ} → M A → (A → M B) → M B
◌>>=◌ m f s = f (m s).0 (m s).1

abbrev pub ◌>>◌ {ℓ} : {B : Type ℓ} → M (Unit {0}) → M B → M B
m >> k = m >>= λ _. k

abbrev pub call {ℓ} : {A : Type ℓ} → Call → (List Call → A) → M A
call c answer s = (answer s.calls, record s { calls = c ∷ s.calls })

abbrev pub wrap {ℓ} : {A : Type ℓ} → Bytes → Result A → Result A
wrap message (ok a) = ok a
wrap message (err e) = err (wrapped message [] e)
