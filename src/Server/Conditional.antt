-- ===== src/Server/Conditional.antt =====
-- The strong comparison, and the headers that go upstream.
use mathlib.Core.List.{reverse, reverse-append, reverse-reverse}
use external_mirror_cache.Base.{
  ◌≤◌, ◌≡◌, ◌↔◌, refl, sym, ap, ◌∙◌, arith, true, [], ◌∷◌, ◌++◌, Bytes, codes, Option, none, some,
  ◌==◌, bytes_eq, bytes_beq, bytes_beq_iff, if◌then◌else◌, length, length-append,
}
use external_mirror_cache.Base.Assoc.{lookup, lookup-insert}
use external_mirror_cache.Go.Strings.{has_prefix, has_suffix}
use external_mirror_cache.Go.Header.{
  Header, canonical_key, get, set, values, or_empty, or_nil, first,
}
use external_mirror_cache.Server.Validators.{
  etag_strong_match, inject_validator, inject_cache_headers, upstream_header,
}

-- A strong entity tag: its text stands in double quotes.
abbrev pub IsStrong : Bytes → Type 0
IsStrong tag = (middle : Bytes) × (tag ≡ codes "\"" ++ (middle ++ codes "\""))

has_prefix-quote :
    (s : Bytes) → has_prefix s (codes "\"") ≡ true → (t : Bytes) × (s ≡ codes "\"" ++ t)
unfolding has_prefix
has_prefix-quote [] h = cc
has_prefix-quote (c ∷ s) h = (s, ground arith)

has_suffix-quote :
    (s : Bytes) → has_suffix s (codes "\"") ≡ true → (t : Bytes) × (s ≡ t ++ codes "\"")
unfolding has_suffix
has_suffix-quote s h =
    let (t, e) = has_prefix-quote (reverse s) h in
    (reverse t, sym (reverse-reverse s) ∙ ap reverse e ∙ reverse-append (codes "\"") t)

both_quotes :
    (s t r : Bytes) → 2 ≤ length s → s ≡ codes "\"" ++ t → s ≡ r ++ codes "\"" → IsStrong s
both_quotes s t [] l p q = absurd (omega (arith, ap length q))
both_quotes s t (c ∷ middle) l p q = (middle, cc)

quoted_suffix : (t : Bytes) → has_suffix (t ++ codes "\"") (codes "\"") ≡ true
unfolding has_suffix has_prefix
quoted_suffix t = rw (reverse-append t (codes "\"")) refl

prefix_quoted : (t : Bytes) → has_prefix (codes "\"" ++ t) (codes "\"") ≡ true
unfolding has_prefix
prefix_quoted t = ground arith

length-quoted : (t : Bytes) → 1 ≤ length (t ++ codes "\"")
length-quoted t = omega (arith, length-append t (codes "\""))

-- Two tags match strongly exactly when they are equal and stand in double quotes.
pub etag_strong_match_iff : (a b : Bytes) → (etag_strong_match a b ≡ true) ↔ ((a ≡ b) × IsStrong a)
unfolding etag_strong_match
etag_strong_match_iff a b = (λ h. (ground (arith, bytes_beq_iff a b), strong h), back)
  where
    strong : etag_strong_match a b ≡ true → IsStrong a
    strong h =
        let (t, p) = has_prefix-quote a (ground arith) in
        let (r, q) = has_suffix-quote a (ground arith) in both_quotes a t r (ground arith) p q

    back : (a ≡ b) × IsStrong a → etag_strong_match a b ≡ true
    back (e, s) =
        let middle = s.0 in
        let f = s.1 in
        ground (
          arith,
          (bytes_beq_iff a b).1 e,
          ap (λ s. has_prefix s (codes "\"")) f,
          ap (λ s. has_suffix s (codes "\"")) f,
          quoted_suffix (codes "\"" ++ middle),
          prefix_quoted (middle ++ codes "\""),
          ap length f,
          length-quoted middle,
        )

get-set :
    (h : Header) (name other v : Bytes)
    → get (set h name v) other
      ≡ (if canonical_key name == canonical_key other then v else get h other)
unfolding get set values
get-set h name other v =
    ground (arith, lookup-insert (canonical_key name) (canonical_key other) (v ∷ []) h)

get-nil : (name : Bytes) → get [] name ≡ []
unfolding get values lookup
get-nil name = refl

get-canonical_key :
    (h : Header) (a b : Bytes) → canonical_key a ≡ canonical_key b → get h a ≡ get h b
unfolding get values
get-canonical_key h a b e = ap (λ k. first (or_nil (lookup k h))) e

-- What a validator becomes, field by field: no other field is changed.
get-inject_validator :
    (field condition other : Bytes) (cached request : Header)
    → get request field ≡ []
    → get request condition ≡ []
    → get (inject_validator field condition cached request) other ≡ (
        if canonical_key condition == canonical_key other
        then get cached field
        else get request other)
unfolding inject_validator
get-inject_validator field condition other cached request free_field free_condition = ground (
  arith,
  get-set request condition other (get cached field),
  get-canonical_key request condition other,
  bytes_beq_iff (get cached field) [],
  bytes_beq_iff (get request field) [],
  bytes_beq_iff (canonical_key condition) (canonical_key other),
)

-- The request that goes upstream: its conditions are the validators of the cached entry, or empty
-- where there is none, and its Accept is the joined one of the client.
pub record IsConditional (accept : Bytes) (cached : Option Header) (request : Header) : Type 0 where
  pub if_none_match : get request (codes "If-None-Match") ≡ get (or_empty cached) (codes "ETag")
  pub if_modified_since :
      get request (codes "If-Modified-Since") ≡ get (or_empty cached) (codes "Last-Modified")
  pub accepts : get request (codes "Accept") ≡ accept

abbrev accept_only : Bytes → Header
accept_only accept = if accept == [] then [] else set [] (codes "Accept") accept

get-accept_only :
    (accept other : Bytes)
    → get (accept_only accept) other
      ≡ (if canonical_key (codes "Accept") == canonical_key other then accept else [])
get-accept_only accept other =
    ground (arith, get-set [] (codes "Accept") other accept, get-nil other, bytes_beq_iff accept [])

-- After the first validator, and after both.
get-first :
    (accept other : Bytes) (cached : Header)
    → get
        (inject_validator (codes "ETag") (codes "If-None-Match") cached (accept_only accept))
        other
      ≡ (if canonical_key (codes "If-None-Match") == canonical_key other
          then get cached (codes "ETag")
          else get (accept_only accept) other)
get-first accept other cached =
    get-inject_validator (codes "ETag") (codes "If-None-Match") other cached (accept_only accept)
      (get-accept_only accept (codes "ETag") ∙ unfold canonical_key bytes_beq in refl)
      (get-accept_only accept (codes "If-None-Match") ∙ unfold canonical_key bytes_beq in refl)

get-both :
    (accept other : Bytes) (cached : Header)
    → get (inject_cache_headers (accept_only accept) cached) other ≡ (
        if canonical_key (codes "If-Modified-Since") == canonical_key other
        then get cached (codes "Last-Modified")
        else if canonical_key (codes "If-None-Match") == canonical_key other
        then get cached (codes "ETag")
        else if canonical_key (codes "Accept") == canonical_key other
        then accept
        else [])
unfolding inject_cache_headers
get-both accept other cached =
    let request =
      inject_validator (codes "ETag") (codes "If-None-Match") cached (accept_only accept) in
    rw (← get-accept_only accept other, ← get-first accept other cached)
      (get-inject_validator (codes "Last-Modified") (codes "If-Modified-Since") other cached request
        (get-first accept (codes "Last-Modified") cached
          ∙ unfold canonical_key bytes_beq in get-accept_only accept (codes "Last-Modified"))
        (get-first accept (codes "If-Modified-Since") cached
          ∙ unfold canonical_key bytes_beq in get-accept_only accept (codes "If-Modified-Since")))

-- The request that goes upstream carries the stored validators as its conditions and the client's
-- joined Accept; with nothing cached it carries no condition.
pub upstream_header-IsConditional :
    (accept : Bytes) (cached : Option Header)
    → IsConditional accept cached (upstream_header accept cached)
unfolding upstream_header canonical_key bytes_beq
upstream_header-IsConditional accept none = record {
  if_none_match = get-accept_only accept (codes "If-None-Match") ∙ sym (get-nil (codes "ETag"));
  if_modified_since =
      get-accept_only accept (codes "If-Modified-Since") ∙ sym (get-nil (codes "Last-Modified"));
  accepts = get-accept_only accept (codes "Accept");
}
upstream_header-IsConditional accept (some cached) = record {
  if_none_match = get-both accept (codes "If-None-Match") cached;
  if_modified_since = get-both accept (codes "If-Modified-Since") cached;
  accepts = get-both accept (codes "Accept") cached;
}
