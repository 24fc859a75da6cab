-- ===== src/Freshness/Gate.antt =====
-- When `Evaluate` says fresh.
use external_mirror_cache.Base.{
  ◌≡◌, ◌↔◌, inl, inr, Bool, true, false, arith, List, Bytes, Bool-cases, codes, sym, subst,
}
use external_mirror_cache.Base.Int.{ℤ, pos, ◌+ℤ◌, ◌-ℤ◌, ◌≤ℤ◌, ◌<ℤ◌, +ℤ_parts}
use external_mirror_cache.Go.Strings.{Std}
use external_mirror_cache.Go.Header.{Header, values}
use external_mirror_cache.Freshness.Directives.{parse_cache_control, parse_age}
use external_mirror_cache.Freshness.Evaluate.{
  Time, Duration, sub_time, max_ℤ, judge, evaluate, declared_lifetime, vary_satisfied, is_zero_time,
}
use external_mirror_cache.Freshness.Exact.{
  half_range, elapsed, elapsed_mono, sub_time-exact, judge-fresh_iff, max_zero,
}
use external_mirror_cache.Freshness.Delta.{parse_age-IsAge}

module _ (g : Std) (stored : Header) (stored_at now : Time) (lifetime_cap : Duration)
    (key_headers : List Bytes) where
  abbrev pub lifetime : Duration × Bool
  lifetime =
      declared_lifetime g (parse_cache_control g (values stored (codes "Cache-Control"))) stored
        stored_at

  abbrev pub stored_age : Duration × Bool
  stored_age = parse_age (values stored (codes "Age"))

  -- The conditions of RFC 9111 and of the cap, in exact integers.
  pub record IsFresh : Type 0 where
    pub stored_known : is_zero_time stored_at ≡ false
    pub reusable : (parse_cache_control g (values stored (codes "Cache-Control"))).no_cache ≡ false
    pub varies : vary_satisfied g (values stored (codes "Vary")) key_headers ≡ true
    pub declares : lifetime.1 ≡ true
    pub ages : stored_age.1 ≡ true
    pub in_lifetime : elapsed now stored_at +ℤ stored_age.0 <ℤ lifetime.0
    pub in_cap : elapsed now stored_at <ℤ lifetime_cap

  abbrev resident : ℤ
  resident = max_ℤ (sub_time now stored_at) (pos 0)

  judge-elapsed_iff :
      lifetime_cap ≤ℤ pos half_range
      → ((judge lifetime.0 stored_age.0 resident lifetime_cap).fresh ≡ true) ↔ (
          (elapsed now stored_at +ℤ stored_age.0 <ℤ lifetime.0)
          × (elapsed now stored_at <ℤ lifetime_cap))
  judge-elapsed_iff h =
      let age = parse_age-IsAge (values stored (codes "Age")) in
      let known =
        judge-fresh_iff lifetime.0 stored_age.0 lifetime_cap resident
          (max_zero (sub_time now stored_at)) age h in
      let exact = sub_time-exact now stored_at lifetime_cap h in
      let Both : ℤ → Type 0 = λ r. (r +ℤ stored_age.0 <ℤ lifetime.0) × (r <ℤ lifetime_cap) in
      (
        λ e. subst Both (exact (inl (known.0 e).1)) (known.0 e),
        λ f. known.1 (subst Both (sym (exact (inr f.1))) f),
      )

  -- With a cap of at most half the range of a duration, the gate says fresh exactly when the
  -- entry has a stored time, no no-cache directive, a Vary that the key covers, a declared
  -- lifetime and a valid Age, and the exact age is below that lifetime and the exact residence
  -- below the cap.
  pub evaluate-fresh_iff :
      lifetime_cap ≤ℤ pos half_range
      → ((evaluate g stored stored_at now lifetime_cap key_headers).fresh ≡ true) ↔ IsFresh
  unfolding evaluate
  evaluate-fresh_iff h =
      let exact = judge-elapsed_iff h in (λ e. ground (arith, exact), λ f. ground (arith, exact))

-- The kill switch: with a cap of zero or less nothing is fresh, whatever the clocks say.
pub evaluate-cap_zero :
    (g : Std) (stored : Header) (stored_at now : Time) (lifetime_cap : Duration)
    (key_headers : List Bytes)
    → lifetime_cap ≤ℤ pos 0
    → (evaluate g stored stored_at now lifetime_cap key_headers).fresh ≡ false
evaluate-cap_zero g stored stored_at now lifetime_cap key_headers h =
    let exact = evaluate-fresh_iff g stored stored_at now lifetime_cap key_headers (omega arith) in
    elim (Bool-cases (evaluate g stored stored_at now lifetime_cap key_headers).fresh) [
      | inl e ↦ let e' = (exact.0 e).in_cap in absurd (omega (arith, max_zero (now -ℤ stored_at)))
      | inr e ↦ e
    ]

-- With a cap of at most half the range of a duration, an entry that is fresh at some instant is
-- fresh at every earlier one.
pub evaluate_antitone :
    (g : Std) (stored : Header) (stored_at now earlier : Time) (lifetime_cap : Duration)
    (key_headers : List Bytes)
    → lifetime_cap ≤ℤ pos half_range
    → earlier ≤ℤ now
    → (evaluate g stored stored_at now lifetime_cap key_headers).fresh ≡ true
    → (evaluate g stored stored_at earlier lifetime_cap key_headers).fresh ≡ true
evaluate_antitone g stored stored_at now earlier lifetime_cap key_headers h le e =
    let f = (evaluate-fresh_iff g stored stored_at now lifetime_cap key_headers h).0 e in
    let shorter = elapsed_mono now earlier stored_at le in
    (evaluate-fresh_iff g stored stored_at earlier lifetime_cap key_headers h).1 (record {
      stored_known = f.stored_known;
      reusable = f.reusable;
      varies = f.varies;
      declares = f.declares;
      ages = f.ages;
      in_lifetime = let i = f.in_lifetime in omega (arith, +ℤ_parts);
      in_cap = let i = f.in_cap in omega arith;
    })
