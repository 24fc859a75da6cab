-- ===== src/S3/Fields.antt =====
-- Headers that are read back, and merges with them, have canonical and distinct names.
use external_mirror_cache.Base.{
  bytes_eq, ◌≡◌, [], ◌∷◌, List, Bytes, codes, Option, Bool-cases, inl, inr, subst,
}
use external_mirror_cache.Base.Assoc.{insert}
use external_mirror_cache.Go.Strings.{trim_prefix}
use external_mirror_cache.Go.Header.{Header, canonical_key, add, del, or_empty, IsCanonical}
use external_mirror_cache.Go.Canonical.{
  canonical_key_twice, insert-IsCanonical, add-IsCanonical, del-IsCanonical,
}
use external_mirror_cache.Errors.{ok, ok-injective, Result-cases}
use external_mirror_cache.Freshness.Merge.{is_frozen, merge_fields, merge}
use external_mirror_cache.S3.Metadata.{
  Json, Metadata, add_all, unmarshal_fields, metadata_to_header,
}

merge_fields-IsCanonical :
    (merged fields : Header) → IsCanonical merged → IsCanonical (merge_fields merged fields)
unfolding merge_fields
merge_fields-IsCanonical merged [] w = w
merge_fields-IsCanonical merged ((name, vs) ∷ fields) w =
    elim (Bool-cases (is_frozen (canonical_key name))) [
      | inl frozen ↦ rw frozen (merge_fields-IsCanonical merged fields w)
      | inr other ↦ rw other (
          merge_fields-IsCanonical (insert (canonical_key name) vs merged) fields
            (insert-IsCanonical (canonical_key name) vs merged (canonical_key_twice name) w))
    ]

pub merge-IsCanonical :
    (stored : Option Header) (validating : Header)
    → IsCanonical (or_empty stored)
    → IsCanonical (merge stored validating)
unfolding merge
merge-IsCanonical stored validating w =
    let h = or_empty stored in
    merge_fields-IsCanonical (del (del h (codes "Age")) (codes "Date")) validating
      (del-IsCanonical (del h (codes "Age")) (codes "Date") (del-IsCanonical h (codes "Age") w))

add_all-IsCanonical :
    (name : Bytes) (vs : List Bytes) (h : Header) → IsCanonical h → IsCanonical (add_all name vs h)
unfolding add_all
add_all-IsCanonical name [] h w = w
add_all-IsCanonical name (v ∷ vs) h w =
    add_all-IsCanonical name vs (add h name v) (add-IsCanonical h name v w)

unmarshal_fields-IsCanonical :
    (j : Json) (m : Metadata) (before after : Header)
    → IsCanonical before
    → unmarshal_fields j m before ≡ ok after
    → IsCanonical after
unfolding unmarshal_fields
unmarshal_fields-IsCanonical j [] before after w =
    λ e. subst IsCanonical (ok-injective before after e) w
unmarshal_fields-IsCanonical j ((k, v) ∷ m) before after w =
    let name = trim_prefix k (codes "x-amz-meta-") in
    elim (Result-cases (j.unmarshal v)) [
      | inl (vs, answer) ↦
          rw (answer, unmarshal_fields)
            (unmarshal_fields-IsCanonical j m (add_all name vs before) after
              (add_all-IsCanonical name vs before w))
      | inr (f, answer) ↦ rw (answer, unmarshal_fields) (λ e. absurd (cc))
    ]

pub metadata_to_header-IsCanonical :
    (j : Json) (m : Metadata) (h : Header) → metadata_to_header j m ≡ ok h → IsCanonical h
unfolding metadata_to_header
metadata_to_header-IsCanonical j m h = unmarshal_fields-IsCanonical j m [] h tt
