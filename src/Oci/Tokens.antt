-- ===== src/Oci/Tokens.antt =====
-- oci_auth.go: the token cache, and the lifetime of a token.
use external_mirror_cache.Base.{
  Bool, List, [], ◌∷◌, Option, none, some, Bytes, ◌==◌, nat_eq, if◌then◌else◌,
}
use external_mirror_cache.Base.Int.{ℤ, pos, negsuc, ltb_ℤ, leb_ℤ, sub64, mul64}
use external_mirror_cache.Base.Assoc.{lookup, insert, delete}
use external_mirror_cache.Oci.Challenge.{Challenge, challenge_eq}

abbrev pub Time : Type 0
Time = ℤ

pub record TokenEntry : Type 0 where
  pub token : Bytes
  pub expiry : Time

abbrev pub TokenCache : Type 0
TokenCache = List (Challenge × TokenEntry)

-- `now.After(expiry)`
abbrev pub after : Time → Time → Bool
after now expiry = ltb_ℤ expiry now

abbrev pub live_token : Time → Option TokenEntry → Option Bytes
live_token now none = none
live_token now (some entry) = if after now entry.expiry then none else some entry.token

unfoldable pub get : Time → Challenge → TokenCache → Option Bytes
get now challenge entries = live_token now (lookup challenge entries)

unfoldable pub set : Challenge → Bytes → Time → TokenCache → TokenCache
set challenge token expiry entries =
    insert challenge (record { token = token; expiry = expiry }) entries

unfoldable pub evict : Challenge → TokenCache → TokenCache
evict challenge entries = delete challenge entries

-- The sweeps of the token cache and of the challenges keep what is not expired.
module _ {ℓ κ} {K : Type ℓ} {V : Type κ} (expiry_of : V → Time) (now : Time) where
  unfoldable pub sweep : List (K × V) → List (K × V)
  sweep [] = []
  sweep ((k, e) ∷ entries) =
      let rest = sweep entries in if after now (expiry_of e) then rest else (k, e) ∷ rest

abbrev second : ℤ
second = pos 1000000000

-- `expires_in`, or the default where it is absent.
abbrev pub or_sixty : ℤ → ℤ
or_sixty (pos n) = if n == 0 then pos 60 else pos n
or_sixty (negsuc n) = negsuc n

-- How long a token is used, from its `expires_in`, an int64 of seconds.
unfoldable pub buffered_duration : ℤ → ℤ
buffered_duration expires_in =
    let seconds = or_sixty expires_in in
    let buffered = sub64 (mul64 seconds second) (mul64 (pos 30) second) in
    if leb_ℤ buffered (pos 0) then mul64 (pos 5) second else buffered
