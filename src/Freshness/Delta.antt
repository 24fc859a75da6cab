-- ===== src/Freshness/Delta.antt =====
-- What `parseDeltaSeconds`, `parseAge` and the once-only rule accept.
use native.Mathlib.Nat.{le_trans, mul-le-mul_right, pow-suc, pow-le-pow_right}
use external_mirror_cache.Base.{
  ℕ, ◌+◌, ◌-◌, ◌*◌, ◌^◌, ◌≤◌, ◌<◌, ◌≡◌, refl, arith, Bool, true, false, List, [], ◌∷◌, Bytes, some,
  none, Bool-cases, leb, leb→le, if◌then◌else◌, length, all, inl, inr, not, ◌&&◌, ◌==◌, bytes_eq,
}
use external_mirror_cache.Base.Int.{ℤ, pos, add64, mul64, max_int64}
use external_mirror_cache.Go.Strings.{is_digit}
use external_mirror_cache.Freshness.Directives.{
  max_delta, second, zero_delta, digits_loop, scaled, parse_delta_seconds, parse_age,
}
use external_mirror_cache.Freshness.Exact.{IsAge}

-- The number that a text of digits writes, behind the digits already read.
abbrev pub decimal : Bytes → ℕ → ℕ
decimal [] n = n
decimal (c ∷ s) n = decimal s (n * 10 + (c - b'0'))

le-decimal : (s : Bytes) (n : ℕ) → n ≤ decimal s n
le-decimal [] n = omega arith
le-decimal (c ∷ s) n = omega (arith, le-decimal s (n * 10 + (c - b'0')))

times_ten : (n p q : ℕ) → q ≡ p * 10 → (n + 1) * 10 * p ≤ (n + 1) * q
times_ten n p q e = rw e (grind arith)

decimal-lt : (s : Bytes) (n : ℕ) → all is_digit s ≡ true → decimal s n < (n + 1) * 10 ^ length s
decimal-lt [] n h = omega arith
decimal-lt (c ∷ s) n h =
    let digit : n * 10 + (c - b'0') + 1 ≤ (n + 1) * 10 = ground arith in
    le_trans (decimal-lt s (n * 10 + (c - b'0')) (ground arith))
      (le_trans (mul-le-mul_right (10 ^ length s) digit) (times_ten n _ _ (pow-suc 10 (length s))))

step64 :
    (n c : ℕ)
    → n * 10 + (c - b'0') ≤ max_int64
    → add64 (mul64 (pos n) (pos 10)) (pos (c - b'0')) ≡ pos (n * 10 + (c - b'0'))
unfolding add64 mul64
step64 n c h = ground arith

digits_loop-decimal :
    (s : Bytes) (n : ℕ)
    → all is_digit s ≡ true
    → decimal s n ≤ max_int64
    → digits_loop s (pos n) ≡ some (pos (decimal s n))
unfolding digits_loop
digits_loop-decimal [] n h b = refl
digits_loop-decimal (c ∷ s) n h b = ground (
  arith,
  step64 n c,
  le-decimal s (n * 10 + (c - b'0')),
  digits_loop-decimal s (n * 10 + (c - b'0')),
)

digits_loop-none : (s : Bytes) (secs : ℤ) → all is_digit s ≡ false → digits_loop s secs ≡ none
unfolding digits_loop
digits_loop-none [] secs h = cc
digits_loop-none (c ∷ s) secs h =
    ground (arith, digits_loop-none s (add64 (mul64 secs (pos 10)) (pos (c - b'0'))))

-- The delta-seconds texts that are accepted: one to eighteen digits, of a value that fits.
abbrev pub is_delta : Bytes → Bool
is_delta s = not (s == []) && all is_digit s && leb (length s) 18 && leb (decimal s 0) max_delta

eighteen : (s : Bytes) → all is_digit s ≡ true → length s ≤ 18 → decimal s 0 ≤ max_int64
eighteen s h b =
    let small = pow-le-pow_right {n = 10} (omega arith) b in omega (arith, decimal-lt s 0 h)

scaled-decimal :
    (n : ℕ)
    → scaled (some (pos n)) ≡ (
        if leb n max_delta
        then record { d = pos (n * second); ok = true; seen = false }
        else zero_delta)
unfolding mul64
scaled-decimal n = ground arith

-- One to eighteen digits, of a value of at most half the range of a duration in seconds, are
-- read as their decimal value in nanoseconds; every other text is refused.
pub parse_delta_seconds-decimal :
    (s : Bytes)
    → parse_delta_seconds s ≡ (
        if is_delta s
        then record { d = pos (decimal s 0 * second); ok = true; seen = false }
        else zero_delta)
unfolding parse_delta_seconds
parse_delta_seconds-decimal s = elim (Bool-cases (all is_digit s)) [
  | inl digits ↦ elim (Bool-cases (leb (length s) 18)) [
    | inl short ↦ ground (
      arith,
      digits_loop-decimal s 0 digits (eighteen s digits (leb→le (length s) 18 short)),
      scaled-decimal (decimal s 0),
    )
    | inr long ↦ ground arith
  ]
  | inr other ↦ ground (arith, digits_loop-none s (pos 0) other)
]

-- A stored Age is a whole number of seconds, of at most half the range.
pub parse_age-IsAge : (vs : List Bytes) → IsAge (parse_age vs).0
unfolding parse_age
parse_age-IsAge [] = ground arith
parse_age-IsAge (v ∷ []) = rw parse_delta_seconds-decimal (ground arith)
parse_age-IsAge (v ∷ w ∷ vs) = ground arith
