-- ===== src/Go/Separate.antt =====
-- A text cut at its first separator byte is cut in one way only.
use external_mirror_cache.Base.{ℕ, ◌≡◌, refl, arith, Bool, true, not, [], ◌∷◌, ◌++◌, Bytes, all}

module _ (sep : ℕ → Bool) where
  abbrev pub free : Bytes → Bool
  free = all (λ c. not (sep c))

  -- Nothing, or a text that begins with a separator.
  abbrev pub IsTail : Bytes → Type 0
  IsTail [] = Unit
  IsTail (c ∷ s) = sep c ≡ true

  pub free_unique :
      (p q s t : Bytes)
      → free p ≡ true
      → free q ≡ true
      → IsTail s
      → IsTail t
      → p ++ s ≡ q ++ t
      → (p ≡ q) × (s ≡ t)
  free_unique [] [] s t fp fq ts tt' e = (refl, e)
  free_unique [] (d ∷ q) [] t fp fq ts tt' e = cc
  free_unique [] (d ∷ q) (c ∷ s) t fp fq ts tt' e = ground arith
  free_unique (c ∷ p) [] s [] fp fq ts tt' e = cc
  free_unique (c ∷ p) [] s (d ∷ t) fp fq ts tt' e = ground arith
  free_unique (c ∷ p) (d ∷ q) s t fp fq ts tt' e = ground (arith, free_unique p q s t)

pub append-cancel_left : (p s t : Bytes) → p ++ s ≡ p ++ t → s ≡ t
append-cancel_left [] s t e = e
append-cancel_left (c ∷ p) s t e = append-cancel_left p s t (cc)
