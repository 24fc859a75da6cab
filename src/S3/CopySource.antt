-- ===== src/S3/CopySource.antt =====
-- S3 decodes the copy source as a query text: what it reads is the key that was meant.
use external_mirror_cache.Base.{
  ℕ, ◌+◌, ◌-◌, ◌*◌, ◌/◌, ◌%◌, ◌≡◌, ◌<◌, ◌∙◌, inl, inr, Bool-cases, refl, ap, arith, true, ◌||◌, [],
  ◌∷◌, ◌++◌, Bytes, ltb, ◌==◌, nat_eq, if◌then◌else◌,
}
use external_mirror_cache.Go.Escape.{is_bytes}
use external_mirror_cache.Go.Url.{is_unreserved, percent, upper_hex}
use external_mirror_cache.S3.Key.{escape_copy_source}

abbrev pub from_hex : ℕ → ℕ
from_hex c = if ltb c b'A' then c - b'0' else c - 55

abbrev plain : ℕ → ℕ
plain c = if c == b'+' then b' ' else c

-- Query-style decoding: an escape is its byte, and '+' is a space.
abbrev pub query_decode : Bytes → Bytes
query_decode [] = []
query_decode (c ∷ []) = plain c ∷ []
query_decode (c ∷ d ∷ []) = plain c ∷ plain d ∷ []
query_decode (c ∷ h ∷ l ∷ s) =
    let escaped = (from_hex h * 16 + from_hex l) ∷ query_decode s in
    let literal = plain c ∷ query_decode (h ∷ l ∷ s) in if c == b'%' then escaped else literal

decode_literal :
    (c : ℕ) (s : Bytes)
    → (is_unreserved c || c == b'/') ≡ true
    → query_decode (c ∷ s) ≡ c ∷ query_decode s
decode_literal c [] h = ground arith
decode_literal c (d ∷ []) h = ground arith
decode_literal c (d ∷ l ∷ s) h = ground arith

from_hex-upper_hex : (n : ℕ) → n < 16 → from_hex (upper_hex n) ≡ n
from_hex-upper_hex n h = ground arith

decode_percent :
    (c : ℕ) (s : Bytes) → ltb c 256 ≡ true → query_decode (percent c ++ s) ≡ c ∷ query_decode s
decode_percent c s h =
    let low : c / 16 < 16 = ground arith in
    rw (from_hex-upper_hex (c / 16) low, from_hex-upper_hex (c % 16) (omega arith))
      (ap (λ (d : ℕ). d ∷ query_decode s) (omega arith))

-- Every text of bytes is read back from its copy source by query decoding.
pub query_decode-escape_copy_source :
    (s : Bytes) → is_bytes s ≡ true → query_decode (escape_copy_source s) ≡ s
unfolding escape_copy_source
query_decode-escape_copy_source [] h = refl
query_decode-escape_copy_source (c ∷ s) h =
    let rest = escape_copy_source s in
    let again = query_decode-escape_copy_source s (ground arith) in
    elim (Bool-cases (is_unreserved c || c == b'/')) [
      | inl literal ↦ rw literal (decode_literal c rest literal ∙ ap (◌∷◌ c) again)
      | inr escaped ↦ rw escaped (decode_percent c rest (ground arith) ∙ ap (◌∷◌ c) again)
    ]
