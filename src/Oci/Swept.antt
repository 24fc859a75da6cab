-- ===== src/Oci/Swept.antt =====
-- What the sweep leaves, and that no later request can tell.
use external_mirror_cache.Base.{
  ◌≡◌, ◌∙◌, refl, subst, ap, arith, Bool-cases, inl, inr, List, [], ◌∷◌, Option, none, some, Bytes,
  Eq, ◌==◌, bytes_eq, if◌then◌else◌,
}
use external_mirror_cache.Base.Int.{◌≤ℤ◌}
use external_mirror_cache.Base.Assoc.{lookup}
use external_mirror_cache.Oci.Challenge.{Challenge, challenge_eq}
use external_mirror_cache.Oci.Tokens.{Time, TokenEntry, TokenCache, after, sweep}
use external_mirror_cache.Oci.Tokens
use external_mirror_cache.Oci.Transport.{Network, State, ChallengeEntry, Call, clock}
use external_mirror_cache.Oci.Sweeper.{
  Signal, tick, closed, sweep_challenges, sweep_tokens, sweep_loop,
}

-- A map has each key once.
module _ {K V : Type 0} ⦃e : Eq K⦄ where
  abbrev pub IsMap : List (K × V) → Type 0
  IsMap [] = Unit
  IsMap ((k, v) ∷ entries) = (lookup k entries ≡ none) × IsMap entries

abbrev kept_entry : {V : Type 0} → (V → Time) → Time → Option V → Option V
kept_entry expiry_of swept_at none = none
kept_entry expiry_of swept_at (some v) = if after swept_at (expiry_of v) then none else some v

module _ {K V : Type 0} ⦃e : Eq K⦄ (expiry_of : V → Time) (swept_at : Time) where
  pub lookup-sweep :
      (k : K) (entries : List (K × V))
      → IsMap entries
      → lookup k (sweep expiry_of swept_at entries)
        ≡ kept_entry expiry_of swept_at (lookup k entries)
  unfolding lookup sweep
  lookup-sweep k [] m = refl
  lookup-sweep k ((k', v) ∷ entries) m =
      let rest = lookup-sweep k entries m.1 in
      elim (Bool-cases (k' == k)) [
        | inl here ↦
            let same : k' ≡ k = (e.test_iff k' k).0 here in
            let gone : lookup k entries ≡ none = subst (λ n. lookup n entries ≡ none) same m.0 in
            elim (Bool-cases (after swept_at (expiry_of v))) [
              | inl old ↦ rw (old, here, old) (rest ∙ ap (kept_entry expiry_of swept_at) gone)
              | inr young ↦ rw (young, here, young) refl
            ]
        | inr other ↦ elim (Bool-cases (after swept_at (expiry_of v))) [
          | inl old ↦ rw (old, other) rest
          | inr young ↦ rw (young, other) rest
        ]
      ]

  pub sweep-IsMap :
      (entries : List (K × V)) → IsMap entries → IsMap (sweep expiry_of swept_at entries)
  unfolding sweep
  sweep-IsMap [] m = tt
  sweep-IsMap ((k, v) ∷ entries) m = elim (Bool-cases (after swept_at (expiry_of v))) [
    | inl old ↦ rw old (sweep-IsMap entries m.1)
    | inr young ↦ rw young (
      lookup-sweep k entries m.1 ∙ ap (kept_entry expiry_of swept_at) m.0,
      sweep-IsMap entries m.1,
    )
  ]

-- What `RoundTrip` takes from the entry of a repository.
abbrev pub live_challenge : Time → Option ChallengeEntry → Option Challenge
live_challenge now none = none
live_challenge now (some entry) = if after entry.expiry now then some entry.challenge else none

kept-live :
    (now swept_at : Time) (o : Option ChallengeEntry)
    → swept_at ≤ℤ now
    → live_challenge now (kept_entry (λ (e : ChallengeEntry). e.expiry) swept_at o)
      ≡ live_challenge now o
kept-live now swept_at none le = refl
kept-live now swept_at (some v) le = ground arith

get-sweep :
    (now swept_at : Time) (c : Challenge) (entries : TokenCache)
    → swept_at ≤ℤ now
    → IsMap entries
    → Tokens.get now c (sweep (λ e. e.expiry) swept_at entries) ≡ Tokens.get now c entries
unfolding Tokens.get
get-sweep now swept_at c entries le m =
    rw (lookup-sweep (λ (e : TokenEntry). e.expiry) swept_at c entries m) (go (lookup c entries))
  where
    go :
        (o : Option TokenEntry)
        → Tokens.live_token now (kept_entry (λ (e : TokenEntry). e.expiry) swept_at o)
          ≡ Tokens.live_token now o
    go none = refl
    go (some v) = ground arith

-- The caches are maps.
pub record AreMaps (s : State) : Type 0 where
  pub challenges : IsMap s.challenges
  pub tokens : IsMap s.tokens

-- At an instant, and so for a request that comes then, both caches say the same in both states.
pub record IsUnseen (now : Time) (s s' : State) : Type 0 where
  pub challenges :
      (key : Bytes)
      → live_challenge now (lookup key s'.challenges) ≡ live_challenge now (lookup key s.challenges)
  pub tokens : (c : Challenge) → Tokens.get now c s'.tokens ≡ Tokens.get now c s.tokens

module _ (net : Network) (now : Time) (past : (calls : List Call) → net.time_now calls ≤ℤ now) where
  abbrev after_tick : State → State
  after_tick s = (sweep_tokens net (sweep_challenges net s).1).1

  tick-AreMaps : (s : State) → AreMaps s → AreMaps (after_tick s)
  unfolding sweep_tokens sweep_challenges
  tick-AreMaps s m = record {
    challenges = sweep-IsMap (λ (e : ChallengeEntry). e.expiry) _ s.challenges m.challenges;
    tokens = sweep-IsMap (λ (e : TokenEntry). e.expiry) _ s.tokens m.tokens;
  }

  tick-IsUnseen : (s : State) → AreMaps s → IsUnseen now s (after_tick s)
  unfolding sweep_tokens sweep_challenges
  tick-IsUnseen s m = record {
    challenges = λ key.
        ap (live_challenge now) (
          lookup-sweep (λ (e : ChallengeEntry). e.expiry) (net.time_now s.calls) key s.challenges
            m.challenges)
        ∙ kept-live now (net.time_now s.calls) (lookup key s.challenges) (past s.calls);
    tokens = λ c. get-sweep now _ c s.tokens (past (clock ∷ s.calls)) m.tokens;
  }

  -- Whatever ticks the sweep has had up to an instant, of caches that are maps: at that instant every
  -- repository has the challenge, and every challenge the token, that it would have had without the
  -- sweep.
  pub sweep_loop-IsUnseen :
      (signals : List Signal) (s : State) → AreMaps s → IsUnseen now s (sweep_loop net signals s).1
  unfolding sweep_loop
  sweep_loop-IsUnseen [] s m = record { challenges = λ key. refl; tokens = λ c. refl }
  sweep_loop-IsUnseen (closed ∷ signals) s m = record {
    challenges = λ key. refl;
    tokens = λ c. refl;
  }
  sweep_loop-IsUnseen (tick ∷ signals) s m =
      let first = tick-IsUnseen s m in
      let rest = sweep_loop-IsUnseen signals (after_tick s) (tick-AreMaps s m) in
      record {
        challenges = λ key. rest.challenges key ∙ first.challenges key;
        tokens = λ c. rest.tokens c ∙ first.tokens c;
      }
