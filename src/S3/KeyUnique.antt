-- ===== src/S3/KeyUnique.antt =====
-- `s3PathFor` tells all resources apart.
use external_mirror_cache.Base.{
  ℕ, ◌≡◌, ◌≢◌, refl, sym, arith, true, [], ◌∷◌, ◌++◌, Bytes, codes, nat_eq, bytes_eq, bytes_beq,
}
use external_mirror_cache.Go.Url.{
  path_mode, path_segment, query_component, escape, path_escape, query_escape, should_escape,
}
use external_mirror_cache.Go.Separate.{IsTail, free_unique, append-cancel_left}
use external_mirror_cache.Go.Escape.{
  is_bytes, escape_injective, escape-free, KeptOut, escape-ne-nil,
}
use external_mirror_cache.Cache.{CacheKey}
use external_mirror_cache.Cache.Distinct.{
  IsKey, mark, slash_or_mark, path_marks, escaped_path-slash, slash-IsTail, key_eq,
}
use external_mirror_cache.S3.Key.{query_part, variant_part, s3_path_for}

segment_marks : KeptOut path_segment slash_or_mark
unfolding should_escape
segment_marks c h = ground arith

query_marks : KeptOut query_component mark
unfolding should_escape
query_marks c h = ground arith

variant_part-IsTail : (v : Bytes) → IsTail mark (variant_part v)
unfolding variant_part bytes_beq
variant_part-IsTail [] = tt
variant_part-IsTail (c ∷ v) = refl

variant_part_unique :
    (v v' : Bytes)
    → is_bytes v ≡ true
    → is_bytes v' ≡ true
    → variant_part v ≡ variant_part v'
    → v ≡ v'
unfolding variant_part bytes_beq
variant_part_unique [] [] h h' e = refl
variant_part_unique [] (d ∷ v') h h' e = cc
variant_part_unique (c ∷ v) [] h h' e = cc
variant_part_unique (c ∷ v) (d ∷ v') h h' e =
    escape_injective path_segment (c ∷ v) (d ∷ v') h h' (cc)

-- A query never reads as a variant: its escaping has a first byte, which is no mark.
query-ne-variant :
    (c : ℕ) (q v v' : Bytes)
    → is_bytes (c ∷ q) ≡ true
    → variant_part v ≢ query_part (c ∷ q) ++ variant_part v'
unfolding variant_part query_part bytes_beq
query-ne-variant c q [] v' h e = cc
query-ne-variant c q (d ∷ v) v' h e =
    let escaped = query_escape (c ∷ q) in
    let none_left =
      free_unique mark [] escaped (b'?' ∷ path_escape (d ∷ v)) (variant_part v') refl
        (escape-free query_component mark query_marks (c ∷ q) h) refl (variant_part-IsTail v')
        (cc) in
    escape-ne-nil query_component c q (sym none_left.0)

-- The tail of a key, its query and its variant, is read in one way.
tail_unique :
    (q q' v v' : Bytes)
    → is_bytes q ≡ true
    → is_bytes q' ≡ true
    → is_bytes v ≡ true
    → is_bytes v' ≡ true
    → query_part q ++ variant_part v ≡ query_part q' ++ variant_part v'
    → (q ≡ q') × (v ≡ v')
unfolding query_part bytes_beq
tail_unique [] [] v v' hq hq' hv hv' e = (refl, variant_part_unique v v' hv hv' e)
tail_unique [] (d ∷ q') v v' hq hq' hv hv' e = absurd (query-ne-variant d q' v v' hq' e)
tail_unique (c ∷ q) [] v v' hq hq' hv hv' e = absurd (query-ne-variant c q v' v hq (sym e))
tail_unique (c ∷ q) (d ∷ q') v v' hq hq' hv hv' e =
    let both =
      free_unique mark (query_escape (c ∷ q)) (query_escape (d ∷ q')) (variant_part v)
        (variant_part v') (escape-free query_component mark query_marks (c ∷ q) hq)
        (escape-free query_component mark query_marks (d ∷ q') hq') (variant_part-IsTail v)
        (variant_part-IsTail v') (cc) in
    (
      escape_injective query_component (c ∷ q) (d ∷ q') hq hq' both.0,
      variant_part_unique v v' hv hv' both.1,
    )

query_part-IsTail : (q v : Bytes) → IsTail mark (query_part q ++ variant_part v)
unfolding query_part bytes_beq
query_part-IsTail [] v = variant_part-IsTail v
query_part-IsTail (c ∷ q) v = refl

-- Under one prefix, two keys, each of an https URL with a host, a path that begins with a slash
-- and a query without NUL, all of bytes, have the same path in the bucket only if they are
-- equal.
pub s3_path_for_injective :
    (prefix : Bytes) (k k' : CacheKey)
    → IsKey k
    → IsKey k'
    → s3_path_for prefix k ≡ s3_path_for prefix k'
    → k ≡ k'
unfolding s3_path_for
s3_path_for_injective prefix k k' w w' e =
    let t = w.target in
    let t' = w'.target in
    let rest : Bytes = query_part k.url.raw_query ++ variant_part k.variant in
    let rest' : Bytes = query_part k'.url.raw_query ++ variant_part k'.variant in
    let hosts =
      free_unique slash_or_mark (path_escape k.url.host) (path_escape k'.url.host)
        (escape path_mode k.url.path ++ rest) (escape path_mode k'.url.path ++ rest')
        (escape-free path_segment slash_or_mark segment_marks k.url.host t.host_bytes)
        (escape-free path_segment slash_or_mark segment_marks k'.url.host t'.host_bytes)
        (slash-IsTail k.url.path rest t.path_slash) (slash-IsTail k'.url.path rest' t'.path_slash)
        (rw (escaped_path-slash k.url t.path_slash, escaped_path-slash k'.url t'.path_slash) at
          (append-cancel_left (prefix ++ codes "/") _ _ e)) in
    let paths =
      free_unique mark (escape path_mode k.url.path) (escape path_mode k'.url.path) rest rest'
        (escape-free path_mode mark path_marks k.url.path t.path_bytes)
        (escape-free path_mode mark path_marks k'.url.path t'.path_bytes)
        (query_part-IsTail k.url.raw_query k.variant)
        (query_part-IsTail k'.url.raw_query k'.variant) hosts.1 in
    let tails =
      tail_unique k.url.raw_query k'.url.raw_query k.variant k'.variant t.query_bytes t'.query_bytes
        w.variant_bytes w'.variant_bytes paths.1 in
    key_eq t t' (escape_injective path_segment _ _ t.host_bytes t'.host_bytes hosts.0)
      (escape_injective path_mode _ _ t.path_bytes t'.path_bytes paths.0) tails.0 tails.1
