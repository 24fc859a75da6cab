-- ===== src/Freshness/Quoted.antt =====
-- `splitQuoted` cuts at exactly the commas outside quoted strings.
use external_mirror_cache.Base.{
  ℕ, ◌≡◌, refl, sym, ap, ◌∙◌, arith, Bool, true, false, not, ◌&&◌, List, [], ◌∷◌, ◌++◌, Bytes,
  Bool-cases, ◌==◌, nat_eq, if◌then◌else◌, inl, inr, append_assoc, append-nil,
}
use external_mirror_cache.Go.Strings.{join}
use external_mirror_cache.Freshness.Directives.{split_quoted_from, split_quoted}

-- Whether a quoted string is open behind a text, when it is or is not in front of it.
abbrev pub open_after : Bool → Bytes → Bool
open_after q [] = q
open_after q (c ∷ s) = open_after (if c == b'"' then not q else q) s

-- No comma stands outside the quoted strings.
abbrev pub no_bare_comma : Bool → Bytes → Bool
no_bare_comma q [] = true
no_bare_comma q (c ∷ s) =
    not (c == b',' && not q) && no_bare_comma (if c == b'"' then not q else q) s

-- Pieces that a list of directives can be cut into.
abbrev pub IsPieces : List Bytes → Type 0
IsPieces [] = ⊥
IsPieces (p ∷ []) = no_bare_comma false p ≡ true
IsPieces (p ∷ q ∷ ps) =
    (no_bare_comma false p ≡ true) × (open_after false p ≡ false) × IsPieces (q ∷ ps)

open_after-append : (q : Bool) (s t : Bytes) → open_after q (s ++ t) ≡ open_after (open_after q s) t
open_after-append q [] t = refl
open_after-append q (c ∷ s) t = open_after-append (if c == b'"' then not q else q) s t

no_bare_comma-append :
    (q : Bool) (s t : Bytes)
    → no_bare_comma q (s ++ t) ≡ (no_bare_comma q s && no_bare_comma (open_after q s) t)
no_bare_comma-append q [] t = refl
no_bare_comma-append q (c ∷ s) t =
    ground (arith, no_bare_comma-append (if c == b'"' then not q else q) s t)

abbrev comma : Bytes
comma = b',' ∷ []

abbrev cuts : ℕ → Bool → Bool
cuts c q = c == b',' && not q

abbrev flips : ℕ → Bool → Bool
flips c q = if c == b'"' then not q else q

split-cons :
    (s piece : Bytes) (q : Bool)
    → (h : Bytes) × (t : List Bytes) × (split_quoted_from piece q s ≡ h ∷ t)
unfolding split_quoted_from
split-cons [] piece q = (piece, [], refl)
split-cons (c ∷ s) piece q = elim (Bool-cases (cuts c q)) [
  | inl here ↦ (piece, split_quoted_from [] q s, rw here)
  | inr more ↦ rw more (split-cons s (piece ++ c ∷ []) (flips c q))
]

join-cons-split :
    (p piece s : Bytes) (q : Bool)
    → join comma (p ∷ split_quoted_from piece q s)
      ≡ p ++ (comma ++ join comma (split_quoted_from piece q s))
unfolding join
join-cons-split p piece s q = let (h, t, e) = split-cons s piece q in rw e

cuts-comma : (c : ℕ) (q : Bool) → cuts c q ≡ true → b',' ≡ c
cuts-comma c q h = ground arith

join-split_from :
    (s piece : Bytes) (q : Bool) → join comma (split_quoted_from piece q s) ≡ piece ++ s
unfolding split_quoted_from
join-split_from [] piece q = unfold join in sym (append-nil piece)
join-split_from (c ∷ s) piece q = elim (Bool-cases (cuts c q)) [
  | inl here ↦ rw here (
      join-cons-split piece [] s q
      ∙ rw (join-split_from s [] q) (ap (λ d. piece ++ d ∷ s) (cuts-comma c q here)))
  | inr more ↦
      rw more (join-split_from s (piece ++ c ∷ []) (flips c q) ∙ append_assoc piece (c ∷ []) s)
]

IsPieces-cons :
    (p piece s : Bytes) (q : Bool)
    → no_bare_comma false p ≡ true
    → open_after false p ≡ false
    → IsPieces (split_quoted_from piece q s)
    → IsPieces (p ∷ split_quoted_from piece q s)
IsPieces-cons p piece s q clean closed h =
    let (x, t, e) = split-cons s piece q in rw e (clean, closed, rw e at h)

split_from-IsPieces :
    (s piece : Bytes) (q : Bool)
    → no_bare_comma false piece ≡ true
    → open_after false piece ≡ q
    → IsPieces (split_quoted_from piece q s)
unfolding split_quoted_from
split_from-IsPieces [] piece q clean state = clean
split_from-IsPieces (c ∷ s) piece q clean state = elim (Bool-cases (cuts c q)) [
  | inl here ↦ rw here (
      IsPieces-cons piece [] s q clean (ground arith)
        (split_from-IsPieces s [] q refl (ground arith)))
  | inr more ↦ rw more (
      split_from-IsPieces s (piece ++ c ∷ []) (flips c q)
        (ground (arith, no_bare_comma-append false piece (c ∷ [])))
        (ground (arith, open_after-append false piece (c ∷ []))))
]

-- No byte is lost: the pieces of a value, joined by commas, are the value.
join-split_quoted : (s : Bytes) → join comma (split_quoted s) ≡ s
unfolding split_quoted
join-split_quoted s = join-split_from s [] false

pub split_quoted-IsPieces : (s : Bytes) → IsPieces (split_quoted s)
unfolding split_quoted
split_quoted-IsPieces s = split_from-IsPieces s [] false refl refl

-- A text with no bare comma goes into the piece at hand.
split_from-append :
    (p piece rest : Bytes) (q : Bool)
    → no_bare_comma q p ≡ true
    → split_quoted_from piece q (p ++ rest) ≡ split_quoted_from (piece ++ p) (open_after q p) rest
unfolding split_quoted_from
split_from-append [] piece rest q h = rw append-nil
split_from-append (c ∷ p) piece rest q h = elim (Bool-cases (cuts c q)) [
  | inl here ↦ absurd (ground arith)
  | inr more ↦
      rw more
        (split_from-append p (piece ++ c ∷ []) rest (flips c q) (ground arith) ∙ rw append_assoc)
]

-- A list of pieces, not empty, none with a bare comma and all but the last with their quotes
-- closed, is read back from its join by commas.
pub split_quoted-join : (ps : List Bytes) → IsPieces ps → split_quoted (join comma ps) ≡ ps
unfolding split_quoted join split_quoted_from
split_quoted-join [] h = absurd h
split_quoted-join (p ∷ []) h =
    ap (split_quoted_from [] false) (sym (append-nil p)) ∙ split_from-append p [] [] false h
split_quoted-join (p ∷ q ∷ ps) h =
    split_from-append p [] (comma ++ join comma (q ∷ ps)) false h.0
    ∙ rw h.1 (ap (◌∷◌ p) (split_quoted-join (q ∷ ps) h.2))
