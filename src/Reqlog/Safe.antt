-- ===== src/Reqlog/Safe.antt =====
-- What the log shows of a header.
use external_mirror_cache.Base.{
  ◌≡◌, refl, arith, false, ◌&&◌, Bool-cases, inl, inr, List, [], ◌∷◌, Option, none, some, Bytes,
  codes, ◌==◌, bytes_eq, bytes_beq_iff, length, ltb, any, if◌then◌else◌,
}
use external_mirror_cache.Base.Assoc.{lookup, lookup-insert}
use external_mirror_cache.Go.Strings.{join}
use external_mirror_cache.Go.Header.{Header, values, set, canonical_key}
use external_mirror_cache.Reqlog.Headers.{safe_headers, attrs_of, header_attrs}

abbrev pub shown : List Bytes → Header → Bytes → Option Bytes
shown names h name =
    if any (λ n. n == name) names && ltb 0 (length (values h name))
    then some (join (codes ", ") (values h name))
    else none

lookup-attrs_of :
    (names : List Bytes) (h : Header) (name : Bytes)
    → lookup name (attrs_of names h) ≡ shown names h name
unfolding attrs_of lookup
lookup-attrs_of [] h name = refl
lookup-attrs_of (n ∷ names) h name = elim (Bool-cases (n == name)) [
  | inl here ↦
      rw ((bytes_beq_iff n name).0 here) (elim (Bool-cases (ltb 0 (length (values h name)))) [
        | inl has ↦ rw (has, (bytes_beq_iff name name).1 refl) refl
        | inr hasnt ↦ rw (hasnt, lookup-attrs_of names h name, hasnt) (ground arith)
      ])
  | inr other ↦ elim (Bool-cases (ltb 0 (length (values h n)))) [
    | inl has ↦ rw (has, other) (lookup-attrs_of names h name)
    | inr hasnt ↦ rw (hasnt, other) (lookup-attrs_of names h name)
  ]
]

-- Every name is in canonical form.
abbrev IsListed : List Bytes → Type 0
IsListed [] = Unit
IsListed (n ∷ names) = (canonical_key n ≡ n) × IsListed names

values-set-other :
    (h : Header) (name v other : Bytes)
    → (canonical_key name == canonical_key other) ≡ false
    → values (set h name v) other ≡ values h other
unfolding values set
values-set-other h name v other ne =
    rw (lookup-insert (canonical_key name) (canonical_key other) (v ∷ []) h, ne) refl

attrs_of-set :
    (names : List Bytes) (h : Header) (name v : Bytes)
    → IsListed names
    → any (λ n. n == canonical_key name) names ≡ false
    → attrs_of names (set h name v) ≡ attrs_of names h
unfolding attrs_of
attrs_of-set [] h name v listed absent = refl
attrs_of-set (n ∷ names) h name v listed absent =
    let parts : ((n == canonical_key name) ≡ false)
        × (any (λ m. m == canonical_key name) names ≡ false) =
      ground arith in
    let ne : (canonical_key name == canonical_key n) ≡ false = rw (listed.0) (
      ground (
        arith,
        bytes_beq_iff n (canonical_key name),
        bytes_beq_iff (canonical_key name) n,
        parts.0,
      )) in
    rw (values-set-other h name v n ne, attrs_of-set names h name v listed.1 parts.1) refl

safe_headers-IsListed : IsListed safe_headers
unfolding canonical_key
safe_headers-IsListed = (
  refl,
  (refl, (refl, (refl, (refl, (refl, (refl, (refl, (refl, (refl, (refl, (refl, tt))))))))))),
)

-- A field whose name is not safe, such as Authorization, in any spelling, leaves no trace in the
-- group that is logged of a header: the group is the same with the field as without it. It shows,
-- under each safe name that the header has, the values joined by commas, and nothing under any other
-- name.
pub header_attrs-set :
    (group : Bytes) (h : Header) (name v other : Bytes)
    → any (λ n. n == canonical_key name) safe_headers ≡ false
    → (header_attrs group (set h name v) ≡ header_attrs group h)
      × (lookup other (header_attrs group h).attrs ≡ shown safe_headers h other)
unfolding header_attrs
header_attrs-set group h name v other absent = (
  rw (attrs_of-set safe_headers h name v safe_headers-IsListed absent) refl,
  lookup-attrs_of safe_headers h other,
)
