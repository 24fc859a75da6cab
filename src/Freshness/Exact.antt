-- ===== src/Freshness/Exact.antt =====
-- The gate's arithmetic: int64 sums and saturated differences against exact integers.
use external_mirror_cache.Base.{ℕ, ◌≤◌, ◌<◌, ◌*◌, ◌≡◌, ◌↔◌, ◌⊎◌, inl, inr, true, arith, Bool-cases}
use external_mirror_cache.Base.Int.{
  ℤ, pos, negsuc, pos_part, neg_part, ◌+ℤ◌, ◌-ℤ◌, -ℤ_parts, ◌≤ℤ◌, ◌<ℤ◌, ltb_ℤ, add64,
}
use external_mirror_cache.Freshness.Directives.{max_delta, second}
use external_mirror_cache.Freshness.Evaluate.{Time, sub_time, saturate, max_ℤ, judge}

-- Half the range of an int64: 146 years in nanoseconds.
abbrev pub half_range : ℕ
half_range = 4611686018427387903

-- How long the entry has been here, with negative clock skew read as zero.
abbrev pub elapsed : Time → Time → ℤ
elapsed now stored_at = max_ℤ (now -ℤ stored_at) (pos 0)

-- Below a cap of at most half the range, saturation has not set in.
pub sub_time-exact :
    (now stored_at : Time) (lifetime_cap : ℤ)
    → lifetime_cap ≤ℤ pos half_range
    → (max_ℤ (sub_time now stored_at) (pos 0) <ℤ lifetime_cap)
      ⊎ (elapsed now stored_at <ℤ lifetime_cap)
    → max_ℤ (sub_time now stored_at) (pos 0) ≡ elapsed now stored_at
unfolding sub_time
sub_time-exact now stored_at lifetime_cap h k = go (now -ℤ stored_at) k
  where
    go :
        (a : ℤ)
        → (max_ℤ (saturate a) (pos 0) <ℤ lifetime_cap) ⊎ (max_ℤ a (pos 0) <ℤ lifetime_cap)
        → max_ℤ (saturate a) (pos 0) ≡ max_ℤ a (pos 0)
    go (pos n) k = ground arith
    go (negsuc n) k = ground arith

abbrev pub IsAge : ℤ → Type 0
IsAge a = (neg_part a ≡ 0) × (pos_part a ≤ max_delta * second)

-- No wrap-around below half the range.
add64-IsAge :
    (resident : ℕ) (stored_age : ℤ)
    → IsAge stored_age
    → resident < half_range
    → add64 (pos resident) stored_age ≡ pos resident +ℤ stored_age
unfolding add64 ◌+ℤ◌
add64-IsAge resident (pos n) a h = ground arith
add64-IsAge resident (negsuc n) a h = absurd (omega arith)

judge_pos-fresh_iff :
    (lifetime stored_age lifetime_cap : ℤ) (resident : ℕ)
    → IsAge stored_age
    → lifetime_cap ≤ℤ pos half_range
    → ((judge lifetime stored_age (pos resident) lifetime_cap).fresh ≡ true)
      ↔ ((pos resident +ℤ stored_age <ℤ lifetime) × (pos resident <ℤ lifetime_cap))
unfolding judge
judge_pos-fresh_iff lifetime stored_age lifetime_cap resident a h =
    elim (Bool-cases (ltb_ℤ (pos resident) lifetime_cap)) [
      | inl early ↦ ground (arith, add64-IsAge resident stored_age)
      | inr late ↦ ground arith
    ]

pub judge-fresh_iff :
    (lifetime stored_age lifetime_cap resident : ℤ)
    → neg_part resident ≡ 0
    → IsAge stored_age
    → lifetime_cap ≤ℤ pos half_range
    → ((judge lifetime stored_age resident lifetime_cap).fresh ≡ true)
      ↔ ((resident +ℤ stored_age <ℤ lifetime) × (resident <ℤ lifetime_cap))
judge-fresh_iff lifetime stored_age lifetime_cap (pos n) z a h =
    judge_pos-fresh_iff lifetime stored_age lifetime_cap n a h
judge-fresh_iff lifetime stored_age lifetime_cap (negsuc n) z a h = absurd (omega arith)

pub max_zero : (a : ℤ) → neg_part (max_ℤ a (pos 0)) ≡ 0
max_zero (pos n) = ground arith
max_zero (negsuc n) = ground arith

pub elapsed_mono :
    (now earlier stored_at : Time)
    → earlier ≤ℤ now
    → elapsed earlier stored_at ≤ℤ elapsed now stored_at
elapsed_mono now earlier stored_at h =
    let a = -ℤ_parts now stored_at in
    let b = -ℤ_parts earlier stored_at in go (now -ℤ stored_at) (earlier -ℤ stored_at) (omega arith)
  where
    go : (a b : ℤ) → b ≤ℤ a → max_ℤ b (pos 0) ≤ℤ max_ℤ a (pos 0)
    go (pos a) (pos b) h = ground arith
    go (pos a) (negsuc b) h = ground arith
    go (negsuc a) (pos b) h = ground arith
    go (negsuc a) (negsuc b) h = ground arith
