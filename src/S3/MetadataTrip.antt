-- ===== src/S3/MetadataTrip.antt =====
-- What is read back from the metadata of a header.
use external_mirror_cache.Base.{
  ◌≡◌, refl, ap, ◌∙◌, arith, true, false, List, [], ◌∷◌, ◌++◌, none, Bytes, codes, ◌==◌, bytes_eq,
  bytes_beq, bytes_beq_iff, any, subst, nat_eq, if◌then◌else◌, Bool-cases, inl, inr, append_assoc,
  append-nil,
}
use external_mirror_cache.Base.Assoc.{lookup, lookup-insert}
use external_mirror_cache.Go.Strings.{trim_prefix, has_prefix}
use external_mirror_cache.Go.Header.{Header, canonical_key, add, values, or_nil, IsCanonical}
use external_mirror_cache.Errors.{ok}
use external_mirror_cache.S3.Metadata.{
  Json, Metadata, allowlist, is_listed, header_to_metadata, add_all, unmarshal_fields,
  metadata_to_header,
}
use external_mirror_cache.S3.MetadataText.{AllSurvive, IsNew, texts, marshal_fields-texts}

values-add :
    (h : Header) (name other v : Bytes)
    → values (add h name v) other ≡ (
        if canonical_key name == canonical_key other
        then values h other ++ v ∷ []
        else values h other)
unfolding add values
values-add h name other v = ground (
  arith,
  lookup-insert (canonical_key name) (canonical_key other)
      (or_nil (lookup (canonical_key name) h) ++ v ∷ []) h,
  bytes_beq_iff (canonical_key name) (canonical_key other),
)

values-add_all :
    (vs : List Bytes) (h : Header) (name other : Bytes)
    → values (add_all name vs h) other
      ≡ (if canonical_key name == canonical_key other then values h other ++ vs else values h other)
unfolding add_all
values-add_all [] h name other = ground (arith, append-nil (values h other))
values-add_all (v ∷ vs) h name other = ground (
  arith,
  values-add_all vs (add h name v) name other,
  values-add h name other v,
  append_assoc (values h other) (v ∷ []) vs,
)

-- The values that survive the allowlist.
abbrev pub kept : Header → Bytes → List Bytes
kept h name = if is_listed name then values h name else []

x_unlisted : (name : Bytes) → any (λ a. a == b'x' ∷ name) allowlist ≡ false
unfolding bytes_beq
x_unlisted name = refl

listed-trim :
    (name : Bytes)
    → is_listed name ≡ true
    → canonical_key name ≡ name
    → trim_prefix name (codes "x-amz-meta-") ≡ name
unfolding is_listed trim_prefix has_prefix
listed-trim [] l c = refl
listed-trim (k ∷ name) l c =
    let Listed : Bytes → Type 0 = λ n. any (λ a. a == n) allowlist ≡ true in
    elim (Bool-cases (k == b'x')) [
      | inl x ↦
          let e : k ≡ b'x' = ground arith in
          let f = subst (λ n. Listed (n ∷ name)) e (subst Listed c l) in
          let g = x_unlisted name in absurd (cc)
      | inr other ↦ rw other refl
    ]

-- What each name reads after the texts of a header are read behind other headers.
record IsRead (j : Json) (m : Metadata) (before h : Header) : Type 0 where
  after : Header
  read : unmarshal_fields j m before ≡ ok after
  reads : (name : Bytes) → values after name ≡ values before name ++ kept h name

is_listed-canonical : (a b : Bytes) → canonical_key a ≡ canonical_key b → is_listed a ≡ is_listed b
unfolding is_listed
is_listed-canonical a b e = ap (λ c. any (λ n. n == c) allowlist) e

-- One more field in front.
kept-cons :
    (name other : Bytes) (vs : List Bytes) (h : Header)
    → canonical_key name ≡ name
    → lookup name h ≡ none
    → kept ((name, vs) ∷ h) other ≡ (
        if is_listed name
        then (if name == canonical_key other then vs else []) ++ kept h other
        else kept h other)
unfolding values lookup
kept-cons name other vs h c absent = elim (Bool-cases (name == canonical_key other)) [
  | inr ne ↦ rw ne (ground arith)
  | inl e ↦
      let same_name = (bytes_beq_iff name (canonical_key other)).0 e in
      let gone : lookup (canonical_key other) h ≡ none =
        subst (λ n. lookup n h ≡ none) same_name absent in
      let listed = is_listed-canonical name other (c ∙ same_name) in
      rw (e, gone, ← listed) (ground (arith, append-nil vs))
]

-- The same texts under other names.
abbrev pub renamed : (Bytes → Bytes) → Metadata → Metadata
renamed f [] = []
renamed f ((name, text) ∷ m) = (f name, text) ∷ renamed f m

renamed-id : (m : Metadata) → renamed (λ n. n) m ≡ m
renamed-id [] = refl
renamed-id ((name, text) ∷ m) = ap (λ (k : Metadata). (name, text) ∷ k) (renamed-id m)

-- Metadata whose names changed, but for no canonical form and to none that is cut.
module _ (f : Bytes → Bytes)
    (f-canonical : (name : Bytes)
      → is_listed name ≡ true
      → canonical_key name ≡ name
      → canonical_key (f name) ≡ canonical_key name)
    (f-trim : (name : Bytes)
      → is_listed name ≡ true
      → canonical_key name ≡ name
      → trim_prefix (f name) (codes "x-amz-meta-") ≡ f name) where
  unmarshal_fields-IsRead :
      (j : Json) (h : Header) (s : AllSurvive j h) (before : Header)
      → IsCanonical h
      → IsRead j (renamed f (texts j h s)) before h
  unfolding unmarshal_fields
  unmarshal_fields-IsRead j [] s before c = record {
    after = before;
    read = refl;
    reads = λ n. unfold values lookup in ground (arith, append-nil (values before n));
  }
  unmarshal_fields-IsRead j ((name, vs) ∷ h) s before c = elim (Bool-cases (is_listed name)) [
    | inr other ↦
        let r = unmarshal_fields-IsRead j h s.1 before c.2 in
        record {
          after = r.after;
          read = rw other r.read;
          reads = λ n. rw (kept-cons name n vs h c.0 c.1, other) (r.reads n);
        }
    | inl listed ↦
        let r = unmarshal_fields-IsRead j h s.1 (add_all (f name) vs before) c.2 in
        record {
          after = r.after;
          read = rw (listed, s.0.2, f-trim name listed c.0) r.read;
          reads = λ n. ground (
            arith,
            r.reads n,
            kept-cons name n vs h c.0 c.1,
            values-add_all vs before (f name) n,
            f-canonical name listed c.0,
            c.0,
            listed,
            append_assoc (values before n) vs (kept h n),
          );
        }
  ]

no_names : (h : Header) → IsNew [] h
no_names [] = tt
no_names ((name, vs) ∷ h) = (unfold lookup in refl, no_names h)

nothing : (name : Bytes) → values [] name ≡ []
nothing name = unfold values lookup in refl

-- What is read back from the metadata of a header, once the service has renamed them.
pub record IsKeptAs (f : Bytes → Bytes) (j : Json) (h : Header) : Type 0 where
  pub metadata : Metadata
  pub written : header_to_metadata j h ≡ ok metadata
  pub after : Header
  pub read : metadata_to_header j (renamed f metadata) ≡ ok after
  pub keeps : (name : Bytes) → values after name ≡ kept h name

pub header_to_metadata-IsKeptAs :
    (f : Bytes → Bytes)
    → ((name : Bytes)
        → is_listed name ≡ true
        → canonical_key name ≡ name
        → canonical_key (f name) ≡ canonical_key name)
    → ((name : Bytes)
        → is_listed name ≡ true
        → canonical_key name ≡ name
        → trim_prefix (f name) (codes "x-amz-meta-") ≡ f name)
    → (j : Json) (h : Header) → IsCanonical h
    → AllSurvive j h
    → IsKeptAs f j h
unfolding header_to_metadata metadata_to_header
header_to_metadata-IsKeptAs f f-canonical f-trim j h c s =
    let r = unmarshal_fields-IsRead f f-canonical f-trim j h s [] c in
    record {
      metadata = texts j h s;
      written = marshal_fields-texts j h s [] c (no_names h);
      after = r.after;
      read = r.read;
      keeps = λ name. r.reads name ∙ ap (λ vs. vs ++ kept h name) (nothing name);
    }

-- A header that is written as metadata and read back keeps the values on the allowlist.
pub record IsKept (j : Json) (h : Header) : Type 0 where
  pub metadata : Metadata
  pub written : header_to_metadata j h ≡ ok metadata
  pub after : Header
  pub read : metadata_to_header j metadata ≡ ok after
  pub keeps : (name : Bytes) → values after name ≡ kept h name

-- A header whose field names are canonical and distinct, and whose lists of values JSON reads back
-- as it wrote them, is written as metadata without error; those metadata are read back without
-- error; and each name then reads the values it had where the allowlist has it, and else none.
pub header_to_metadata-IsKept :
    (j : Json) (h : Header) → IsCanonical h → AllSurvive j h → IsKept j h
header_to_metadata-IsKept j h c s =
    let r = header_to_metadata-IsKeptAs (λ n. n) (λ n l e. refl) listed-trim j h c s in
    record {
      metadata = r.metadata;
      written = r.written;
      after = r.after;
      read = rw renamed-id at r.read;
      keeps = r.keeps;
    }
