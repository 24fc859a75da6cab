-- ===== src/Go/Escape.antt =====
-- Percent-encoding is injective, and keeps separators out.
use external_mirror_cache.Base.{
  ℕ, ◌/◌, ◌%◌, ◌<◌, ◌≡◌, ◌≢◌, refl, sym, arith, Bool, true, false, not, ◌||◌, [], ◌∷◌, ◌++◌, Bytes,
  all, all-append, ltb, Bool-cases, inl, inr, ◌==◌, nat_eq,
}
use external_mirror_cache.Go.Url.{
  Mode, path_mode, query_component, should_escape, escape_byte, escape, percent, upper_hex,
  is_alnum, is_query,
}
use external_mirror_cache.Go.Separate.{free}

abbrev pub is_bytes : Bytes → Bool
is_bytes = all (λ c. ltb c 256)

hex_unique : (a b : ℕ) → a < 16 → b < 16 → upper_hex a ≡ upper_hex b → a ≡ b
hex_unique a b ha hb e = ground arith

percent_unique :
    (c d : ℕ) (s t : Bytes)
    → ltb c 256 ≡ true
    → ltb d 256 ≡ true
    → percent c ++ s ≡ percent d ++ t
    → (c ≡ d) × (s ≡ t)
percent_unique c d s t hc hd e =
    let high = hex_unique (c / 16) (d / 16) (ground arith) (ground arith) (cc) in
    let low = hex_unique (c % 16) (d % 16) (omega arith) (omega arith) (cc) in (omega arith, cc)

percent_escaped : (m : Mode) → should_escape m b'%' ≡ true
unfolding should_escape
percent_escaped path_mode = refl
percent_escaped _ = refl

plus_escaped : (m : Mode) → is_query m ≡ true → should_escape m b'+' ≡ true
unfolding should_escape
plus_escaped query_component h = refl
plus_escaped _ h = cc

escape_byte_unique :
    (m : Mode) (c d : ℕ) (s t : Bytes)
    → ltb c 256 ≡ true
    → ltb d 256 ≡ true
    → escape_byte m c ++ s ≡ escape_byte m d ++ t
    → (c ≡ d) × (s ≡ t)
unfolding escape_byte
escape_byte_unique m c d s t hc hd e =
    ground (arith, percent_unique c d s t, percent_escaped m, plus_escaped m)

escape_byte-ne-nil : (m : Mode) (c : ℕ) (s : Bytes) → escape_byte m c ++ s ≢ []
unfolding escape_byte
escape_byte-ne-nil m c s e = ground arith

pub escape-ne-nil : (m : Mode) (c : ℕ) (s : Bytes) → escape m (c ∷ s) ≢ []
unfolding escape
escape-ne-nil m c s = escape_byte-ne-nil m c (escape m s)

pub escape_injective :
    (m : Mode) (s t : Bytes)
    → is_bytes s ≡ true
    → is_bytes t ≡ true
    → escape m s ≡ escape m t
    → s ≡ t
unfolding escape
escape_injective m [] [] hs ht e = refl
escape_injective m [] (d ∷ t) hs ht e = absurd (escape_byte-ne-nil m d (escape m t) (sym e))
escape_injective m (c ∷ s) [] hs ht e = absurd (escape_byte-ne-nil m c (escape m s) e)
escape_injective m (c ∷ s) (d ∷ t) hs ht e =
    ground (arith, escape_byte_unique m c d (escape m s) (escape m t), escape_injective m s t)

-- A separator is escaped, and is none of the bytes that escapes are written with.
abbrev pub KeptOut : Mode → (ℕ → Bool) → Type 0
KeptOut m sep =
    (c : ℕ)
    → sep c ≡ true
    → (should_escape m c ≡ true) × ((is_alnum c || c == b'%' || c == b'+') ≡ false)

module _ (m : Mode) (sep : ℕ → Bool) (kept_out : KeptOut m sep) where
  hex-kept_out : (n : ℕ) → n < 16 → sep (upper_hex n) ≡ false
  hex-kept_out n h = elim (Bool-cases (sep (upper_hex n))) [
    | inl e ↦ let f = (kept_out (upper_hex n) e).1 in absurd (ground arith)
    | inr e ↦ e
  ]

  escape_byte-free : (c : ℕ) → ltb c 256 ≡ true → free sep (escape_byte m c) ≡ true
  unfolding escape_byte
  escape_byte-free c h = ground (
    arith,
    kept_out c,
    kept_out b'%',
    kept_out b'+',
    hex-kept_out (c / 16) (ground arith),
    hex-kept_out (c % 16) (omega arith),
  )

  pub escape-free : (s : Bytes) → is_bytes s ≡ true → free sep (escape m s) ≡ true
  unfolding escape
  escape-free [] h = refl
  escape-free (c ∷ s) h =
      rw (all-append (λ d. not (sep d)) (escape_byte m c) (escape m s))
        (ground (arith, escape_byte-free c, escape-free s))
