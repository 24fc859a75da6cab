-- ===== src/Freshness/Precedence.antt =====
-- Which directive decides the lifetime.
use external_mirror_cache.Base.{
  ◌*◌, ◌≡◌, ◌⊎◌, refl, arith, Bool, true, false, List, [], ◌∷◌, Bytes, codes, inl, inr, length, leb,
  not,
}
use external_mirror_cache.Base.Int.{ℤ, pos, ◌≤ℤ◌, ◌<ℤ◌, ◌+ℤ◌}
use external_mirror_cache.Go.Strings.{Std}
use external_mirror_cache.Go.Header.{Header, values}
use external_mirror_cache.Freshness.Directives.{parse_once, second, CcDirectives, parse_age}
use external_mirror_cache.Freshness.Delta.{decimal, is_delta, parse_delta_seconds-decimal}
use external_mirror_cache.Freshness.Evaluate.{Time, Duration, declared_lifetime, evaluate}
use external_mirror_cache.Freshness.Exact.{half_range, elapsed}
use external_mirror_cache.Freshness.Gate.{evaluate-fresh_iff}
use external_mirror_cache.Freshness.Occurs.{directives_of, args_named, parse_cache_control-args}

-- Exactly one argument, of valid delta-seconds.
abbrev pub OneDelta : List Bytes → ℤ → Type 0
OneDelta [] d = ⊥
OneDelta (a ∷ []) d = (is_delta a ≡ true) × (d ≡ pos (decimal a 0 * second))
OneDelta (a ∷ b ∷ rest) d = ⊥

parse_once-OneDelta :
    (args : List Bytes) → (parse_once args).ok ≡ true → OneDelta args (parse_once args).d
unfolding parse_once
parse_once-OneDelta [] h = cc
parse_once-OneDelta (a ∷ []) h = ground (arith, parse_delta_seconds-decimal a)
parse_once-OneDelta (a ∷ b ∷ args) h = cc

-- The arguments that decide: those of s-maxage where there are any, else those of max-age.
abbrev pub deciding : List Bytes → List Bytes → List Bytes
deciding [] max_ages = max_ages
deciding (a ∷ rest) max_ages = a ∷ rest

declared_lifetime-deciding :
    (g : Std) (b : Bool) (shared private : List Bytes) (stored : Header) (stored_at : Time)
    → let directives : CcDirectives = record {
      no_cache = b;
      s_max_age = parse_once shared;
      max_age = parse_once private;
    } in
      let l : Duration × Bool = declared_lifetime g directives stored stored_at in
      l.1 ≡ true → (deciding shared private ≡ []) ⊎ OneDelta (deciding shared private) l.0
unfolding declared_lifetime parse_once
declared_lifetime-deciding g b [] [] stored stored_at h = inl refl
declared_lifetime-deciding g b [] (a ∷ []) stored stored_at h = inr (parse_once-OneDelta (a ∷ []) h)
declared_lifetime-deciding g b [] (a ∷ c ∷ rest) stored stored_at h = cc
declared_lifetime-deciding g b (a ∷ []) private stored stored_at h =
    inr (parse_once-OneDelta (a ∷ []) h)
declared_lifetime-deciding g b (a ∷ c ∷ rest) private stored stored_at h = cc

-- What a fresh entry's Cache-Control holds.
pub record Grants (g : Std) (values_of : List Bytes) (age : ℤ) : Type 0 where
  pub no_cache_absent : args_named g (codes "no-cache") (directives_of values_of) ≡ []
  pub decides :
      let shared : List Bytes = args_named g (codes "s-maxage") (directives_of values_of) in
      let private : List Bytes = args_named g (codes "max-age") (directives_of values_of) in
      (deciding shared private ≡ [])
      ⊎ ((lifetime : ℤ) × OneDelta (deciding shared private) lifetime × (age <ℤ lifetime))

no_args : (args : List Bytes) → not (leb (length args) 0) ≡ false → args ≡ []
no_args [] h = refl
no_args (a ∷ rest) h = absurd (ground arith)

-- With a cap of at most half the range of a duration, an entry that is fresh has no no-cache
-- directive in any form, and where it has s-maxage directives, or else max-age directives, there
-- is just one of them, it is valid, and the exact age is below it.
pub evaluate-Grants :
    (g : Std) (stored : Header) (stored_at now : Time) (lifetime_cap : Duration)
    (key_headers : List Bytes)
    → lifetime_cap ≤ℤ pos half_range
    → (evaluate g stored stored_at now lifetime_cap key_headers).fresh ≡ true
    → Grants g
        (values stored (codes "Cache-Control"))
        (elapsed now stored_at +ℤ (parse_age (values stored (codes "Age"))).0)
evaluate-Grants g stored stored_at now lifetime_cap key_headers h e =
    let f = (evaluate-fresh_iff g stored stored_at now lifetime_cap key_headers h).0 e in
    let vs = values stored (codes "Cache-Control") in
    let same = parse_cache_control-args g vs in
    let shared = args_named g (codes "s-maxage") (directives_of vs) in
    let private = args_named g (codes "max-age") (directives_of vs) in
    record {
      no_cache_absent = no_args _ (rw same at f.reusable);
      decides =
          elim (declared_lifetime-deciding g _ shared private stored stored_at
            (rw same at f.declares)) [
              | inl nothing ↦ inl nothing
              | inr one ↦ inr (_, one, rw same at f.in_lifetime)
            ];
    }
