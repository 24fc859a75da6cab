-- ===== src/S3/Key.antt =====
-- s3_cache.go: `s3PathFor` and `escapeCopySource`.
use external_mirror_cache.Base.{
  ◌||◌, [], ◌∷◌, ◌++◌, Bytes, codes, ◌==◌, nat_eq, bytes_eq, if◌then◌else◌,
}
use external_mirror_cache.Go.Url.{path_escape, query_escape, escaped_path, is_unreserved, percent}
use external_mirror_cache.Cache.{CacheKey}

-- "?" and the query, where there is one.
unfoldable pub query_part : Bytes → Bytes
query_part raw_query = if raw_query == [] then [] else b'?' ∷ query_escape raw_query

-- "??" and the variant, where there is one.
unfoldable pub variant_part : Bytes → Bytes
variant_part variant = if variant == [] then [] else b'?' ∷ b'?' ∷ path_escape variant

unfoldable pub s3_path_for : Bytes → CacheKey → Bytes
s3_path_for prefix key =
    let u = key.url in
    (prefix ++ codes "/")
    ++ (path_escape u.host
        ++ (escaped_path u ++ (query_part u.raw_query ++ variant_part key.variant)))

unfoldable pub escape_copy_source : Bytes → Bytes
escape_copy_source [] = []
escape_copy_source (c ∷ s) =
    (if is_unreserved c || c == b'/' then c ∷ [] else percent c) ++ escape_copy_source s
