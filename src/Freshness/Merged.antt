-- ===== src/Freshness/Merged.antt =====
-- Where each field of a merged header set comes from.
use external_mirror_cache.Base.{
  ◌≡◌, refl, arith, ◌||◌, List, [], ◌∷◌, Bytes, codes, ◌==◌, bytes_eq, bytes_beq_iff, bytes_beq,
  if◌then◌else◌, Option, none, some,
}
use external_mirror_cache.Base.Assoc.{lookup, insert, delete, lookup-insert, lookup-delete}
use external_mirror_cache.Go.Header.{
  Header, canonical_key, or_empty, del, IsCanonical, values, or_nil,
}
use external_mirror_cache.Freshness.Merge.{is_frozen, merge_fields, merge}

abbrev pub or_else : Option (List Bytes) → Option (List Bytes) → Option (List Bytes)
or_else none o = o
or_else (some vs) o = some vs

-- The fields that a merge keeps from the stored entry when the response has none.
abbrev pub retained : Option Header → Bytes → Option (List Bytes)
retained stored name =
    if codes "Age" == name || codes "Date" == name then none else lookup name (or_empty stored)

lookup-merge_fields :
    (merged validating : Header) (name : Bytes)
    → IsCanonical validating
    → lookup name (merge_fields merged validating) ≡ (
        if is_frozen name
        then lookup name merged
        else or_else (lookup name validating) (lookup name merged))
unfolding merge_fields lookup
lookup-merge_fields merged [] name h = ground arith
lookup-merge_fields merged ((k, vs) ∷ fields) name h =
    let merged' = if is_frozen k then merged else insert k vs merged in
    rw h.0 (
      ground (
        arith,
        lookup-merge_fields merged' fields name h.2,
        lookup-insert k name vs merged,
        bytes_beq_iff k name,
        h.1,
      ))

lookup-retained :
    (stored : Option Header) (name : Bytes)
    → lookup name (del (del (or_empty stored) (codes "Age")) (codes "Date")) ≡ retained stored name
unfolding del canonical_key
lookup-retained stored name =
    let h = or_empty stored in
    ground (
      arith,
      lookup-delete (codes "Date") name (delete (codes "Age") h),
      lookup-delete (codes "Age") name h,
    )

-- Each field of a merge with a response whose field names are canonical and distinct: a body
-- field is the stored one; any other is the response's where it has one, else the stored one,
-- but for Age and Date, which are never inherited.
pub lookup-merge :
    (stored : Option Header) (validating : Header) (name : Bytes)
    → IsCanonical validating
    → lookup name (merge stored validating) ≡ (
        if is_frozen name
        then retained stored name
        else or_else (lookup name validating) (retained stored name))
unfolding merge
lookup-merge stored validating name h =
    rw (lookup-merge_fields _ validating name h, lookup-retained stored name)

-- The ETag values of a merge: the response's where it has the field, else the stored ones.
pub values-merge-etag :
    (stored : Option Header) (validating : Header)
    → IsCanonical validating
    → values (merge stored validating) (codes "ETag")
      ≡ or_nil
          (or_else (lookup (codes "Etag") validating) (lookup (codes "Etag") (or_empty stored)))
unfolding values canonical_key
values-merge-etag stored validating h =
    rw (lookup-merge stored validating (codes "Etag") h) (unfold is_frozen bytes_beq in refl)
