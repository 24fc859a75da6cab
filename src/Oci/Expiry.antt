-- ===== src/Oci/Expiry.antt =====
-- How long a token is used.
use external_mirror_cache.Base.{ℕ, ◌-◌, ◌*◌, ◌≤◌, ◌≡◌, arith, leb, ◌==◌, nat_eq, if◌then◌else◌}
use external_mirror_cache.Base.Int.{ℤ, pos, negsuc, leb_ℤ, ◌<ℤ◌, mul64, sub64, ◌-ℤ◌, ◌*ℤ◌, wrap64}
use external_mirror_cache.Oci.Tokens.{buffered_duration, or_sixty}

-- The seconds that a token is used for, of those that it is granted for.
abbrev pub used_seconds : ℕ → ℕ
used_seconds n =
    let granted = if n == 0 then 60 else n in if leb granted 30 then 5 else granted - 30

-- A lifetime of at most 9223372036 seconds, 292 years, is cut by thirty seconds, and is five seconds
-- where nothing would be left; an absent lifetime counts as sixty seconds.
pub buffered_duration-used_seconds :
    (n : ℕ) → n ≤ 9223372036 → buffered_duration (pos n) ≡ pos (used_seconds n * 1000000000)
unfolding buffered_duration mul64 sub64 ◌-ℤ◌ ◌*ℤ◌ wrap64
buffered_duration-used_seconds n h = ground arith

positive_or_five : (b : ℤ) → pos 0 <ℤ (if leb_ℤ b (pos 0) then pos 5000000000 else b)
positive_or_five (pos n) = ground arith
positive_or_five (negsuc n) = ground arith

-- Whatever the endpoint grants, negative and overflowing lifetimes included, the token is used for
-- a positive time.
pub buffered_duration_positive : (expires_in : ℤ) → pos 0 <ℤ buffered_duration expires_in
unfolding buffered_duration mul64 ◌*ℤ◌ wrap64
buffered_duration_positive expires_in =
    positive_or_five
      (sub64 (mul64 (or_sixty expires_in) (pos 1000000000)) (mul64 (pos 30) (pos 1000000000)))
