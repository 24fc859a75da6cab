-- ===== src/S3/PathBytes.antt =====
-- Object paths are texts of bytes, so that their copy source is read back.
use external_mirror_cache.Base.{
  ◌≡◌, refl, arith, true, [], ◌∷◌, ◌++◌, Bytes, codes, all-append, ltb, Bool-cases, inl, inr, ◌==◌,
  bytes_eq, ℕ,
}
use external_mirror_cache.Go.Escape.{is_bytes}
use external_mirror_cache.Go.Url.{
  Url, Mode, escape_byte, escape, percent, escaped_path, path_segment, query_component, path_mode,
}
use external_mirror_cache.Cache.{CacheKey}
use external_mirror_cache.Cache.Distinct.{IsKey}
use external_mirror_cache.S3.Key.{s3_path_for, query_part, variant_part, escape_copy_source}
use external_mirror_cache.S3.CopySource.{query_decode, query_decode-escape_copy_source}

pub append-is_bytes :
    (s t : Bytes) → is_bytes s ≡ true → is_bytes t ≡ true → is_bytes (s ++ t) ≡ true
append-is_bytes s t hs ht = rw (all-append (λ c. ltb c 256) s t, hs, ht) refl

percent-is_bytes : (c : ℕ) → ltb c 256 ≡ true → is_bytes (percent c) ≡ true
percent-is_bytes c h = ground arith

escape_byte-is_bytes : (m : Mode) (c : ℕ) → ltb c 256 ≡ true → is_bytes (escape_byte m c) ≡ true
unfolding escape_byte
escape_byte-is_bytes m c h = ground (arith, percent-is_bytes c h)

pub escape-is_bytes : (m : Mode) (s : Bytes) → is_bytes s ≡ true → is_bytes (escape m s) ≡ true
unfolding escape
escape-is_bytes m [] h = refl
escape-is_bytes m (c ∷ s) h =
    append-is_bytes (escape_byte m c) (escape m s) (escape_byte-is_bytes m c (ground arith))
      (escape-is_bytes m s (ground arith))

escaped_path-is_bytes : (u : Url) → is_bytes u.path ≡ true → is_bytes (escaped_path u) ≡ true
unfolding escaped_path
escaped_path-is_bytes u h = elim (Bool-cases (u.path == codes "*")) [
  | inl star ↦ rw star refl
  | inr other ↦ rw other (escape-is_bytes path_mode u.path h)
]

query_part-is_bytes : (q : Bytes) → is_bytes q ≡ true → is_bytes (query_part q) ≡ true
unfolding query_part
query_part-is_bytes q h = ground (arith, escape-is_bytes query_component q h)

variant_part-is_bytes : (v : Bytes) → is_bytes v ≡ true → is_bytes (variant_part v) ≡ true
unfolding variant_part
variant_part-is_bytes v h = ground (arith, escape-is_bytes path_segment v h)

pub s3_path_for-is_bytes :
    (prefix : Bytes) (k : CacheKey)
    → is_bytes prefix ≡ true
    → IsKey k
    → is_bytes (s3_path_for prefix k) ≡ true
unfolding s3_path_for
s3_path_for-is_bytes prefix k h w =
    let t = w.target in
    append-is_bytes (prefix ++ codes "/") _ (append-is_bytes prefix (codes "/") h refl) (
      append-is_bytes (escape path_segment k.url.host) _
        (escape-is_bytes path_segment k.url.host t.host_bytes)
        (append-is_bytes (escaped_path k.url) _ (escaped_path-is_bytes k.url t.path_bytes) (
          append-is_bytes (query_part k.url.raw_query) (variant_part k.variant)
            (query_part-is_bytes k.url.raw_query t.query_bytes)
            (variant_part-is_bytes k.variant w.variant_bytes))))

-- The copy source of an object is read back as its bucket and its path.
pub copy_source_lem :
    (bucket prefix : Bytes) (k : CacheKey)
    → is_bytes bucket ≡ true
    → is_bytes prefix ≡ true
    → IsKey k
    → query_decode (escape_copy_source (bucket ++ (codes "/" ++ s3_path_for prefix k)))
      ≡ bucket ++ (codes "/" ++ s3_path_for prefix k)
copy_source_lem bucket prefix k b h w = query_decode-escape_copy_source _ (
    append-is_bytes bucket _ b
      (append-is_bytes (codes "/") (s3_path_for prefix k) refl (s3_path_for-is_bytes prefix k h w)))
