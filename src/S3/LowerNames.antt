-- ===== src/S3/LowerNames.antt =====
-- Header names in lower case, as S3 gives them back, and their canonical form.
use external_mirror_cache.Base.{
  ◌≡◌, refl, arith, Bool, true, false, [], ◌∷◌, Bytes, codes, subst, ◌==◌, nat_eq, bytes_eq,
  bytes_beq_iff, List, not, Bool-cases, inl, inr, any, all, map, ℕ,
}
use external_mirror_cache.Go.Strings.{lower, upper, trim_prefix, has_prefix}
use external_mirror_cache.Go.Header.{is_token, canonical_case, canonical_key}
use external_mirror_cache.Go.Canonical.{is_token-lower, lower-lower}
use external_mirror_cache.S3.Metadata.{allowlist, is_listed}

all-token-lower : (s : Bytes) → all is_token (map lower s) ≡ all is_token s
all-token-lower [] = refl
all-token-lower (c ∷ s) = rw (is_token-lower c, all-token-lower s) refl

upper-lower : (c : ℕ) → upper (lower c) ≡ upper c
upper-lower c = ground arith

canonical_case-lower : (b : Bool) (s : Bytes) → canonical_case b (map lower s) ≡ canonical_case b s
unfolding canonical_case
canonical_case-lower b [] = refl
canonical_case-lower true (c ∷ s) =
    rw (upper-lower c, canonical_case-lower (upper c == b'-') s) refl
canonical_case-lower false (c ∷ s) =
    rw (lower-lower c, canonical_case-lower (lower c == b'-') s) refl

-- What holds of all members holds of a text that is one of them.
any-all :
    (p : Bytes → Bool) (c : Bytes) (names : List Bytes)
    → all p names ≡ true
    → any (λ n. n == c) names ≡ true
    → p c ≡ true
any-all p c [] h e = absurd (cc)
any-all p c (n ∷ names) h e = elim (Bool-cases (n == c)) [
  | inl here ↦
      let holds : p n ≡ true = ground arith in
      subst (λ m. p m ≡ true) ((bytes_beq_iff n c).0 here) holds
  | inr later ↦ any-all p c names (ground arith) (ground arith)
]

-- In lower case it does not begin with the x of a prefix that is cut.
no_x : Bytes → Bool
no_x [] = true
no_x (c ∷ s) = not (lower c == b'x')

listed-all :
    (p : Bytes → Bool) (name : Bytes)
    → all p allowlist ≡ true
    → is_listed name ≡ true
    → canonical_key name ≡ name
    → p name ≡ true
unfolding is_listed
listed-all p name h listed c = any-all p name allowlist h (rw c at listed)

pub lower-canonical :
    (name : Bytes)
    → is_listed name ≡ true
    → canonical_key name ≡ name
    → canonical_key (map lower name) ≡ canonical_key name
unfolding canonical_key
lower-canonical name listed c =
    let token = listed-all (all is_token) name refl listed c in
    rw (all-token-lower name, token, canonical_case-lower true name) refl

trim-no_x :
    (s : Bytes) → no_x s ≡ true → trim_prefix (map lower s) (codes "x-amz-meta-") ≡ map lower s
unfolding trim_prefix has_prefix no_x
trim-no_x [] h = refl
trim-no_x (c ∷ s) h = let other : (lower c == b'x') ≡ false = ground arith in rw other refl

pub lower-trim :
    (name : Bytes)
    → is_listed name ≡ true
    → canonical_key name ≡ name
    → trim_prefix (map lower name) (codes "x-amz-meta-") ≡ map lower name
unfolding no_x
lower-trim name listed c = trim-no_x name (listed-all no_x name refl listed c)
