-- ===== src/Freshness/Merge.antt =====
-- internal/freshness/merge.go: the headers to store after a successful revalidation.
use external_mirror_cache.Base.{
  Bool, List, [], ◌∷◌, Option, Bytes, codes, ◌==◌, bytes_eq, if◌then◌else◌, any,
}
use external_mirror_cache.Base.Assoc.{insert}
use external_mirror_cache.Go.Header.{Header, canonical_key, or_empty, del}

abbrev pub body_fields : List Bytes
body_fields =
    codes "Content-Length"
    ∷ codes "Content-Encoding"
    ∷ codes "Content-Range"
    ∷ codes "Content-Type"
    ∷ []

-- `_, frozen := bodyFields[canonical]`
unfoldable pub is_frozen : Bytes → Bool
is_frozen canonical = any (λ field. field == canonical) body_fields

-- The loop over the validating response's fields.
unfoldable pub merge_fields : Header → Header → Header
merge_fields merged [] = merged
merge_fields merged ((name, vs) ∷ fields) =
    let canonical = canonical_key name in
    merge_fields (if is_frozen canonical then merged else insert canonical vs merged) fields

-- A nil stored map is cloned to an empty one.
unfoldable pub merge : Option Header → Header → Header
merge stored validating =
    merge_fields (del (del (or_empty stored) (codes "Age")) (codes "Date")) validating
