-- ===== src/S3/Stored.antt =====
-- What `Put` leaves in the bucket, and what `Touch` leaves of it.
use external_mirror_cache.Base.{
  ◌≡◌, ◌≢◌, ◌⊎◌, ◌↔◌, inl, inr, refl, sym, subst, ap, ◌∙◌, arith, [], Bytes, codes, Option, none,
  some, map, bytes_eq, bytes_beq_iff,
}
use external_mirror_cache.Go.Strings.{lower}
use external_mirror_cache.Go.Header.{Header, IsCanonical, values, get}
use external_mirror_cache.Errors.{Result, ok, err}
use external_mirror_cache.Cache.{CacheKey}
use external_mirror_cache.S3.Metadata.{Json, metadata_to_header}
use external_mirror_cache.S3.MetadataText.{AllSurvive}
use external_mirror_cache.S3.MetadataTrip.{kept, renamed, IsKeptAs, header_to_metadata-IsKeptAs}
use external_mirror_cache.S3.LowerNames.{lower-canonical, lower-trim}
use external_mirror_cache.S3.Api.{Api, Object, Place, UploadInput, IsUpload, IsS3}
use external_mirror_cache.S3.Store.{
  HttpCache, place_of, wrap_place, content_type_of, put, upload_with, upload_input,
}

-- A header as the metadata of an object hold it, in lower case.
abbrev IsKeptLow : Json → Header → Type 0
IsKeptLow = IsKeptAs (map lower)

pub kept_low : (j : Json) (h : Header) → IsCanonical h → AllSurvive j h → IsKeptLow j h
kept_low = header_to_metadata-IsKeptAs (map lower) lower-canonical lower-trim

-- The content type that an object gets of a header: that of its Content-Type, and none where that is
-- absent or empty.
pub record IsTypeOf (headers : Header) (content_type : Option Bytes) : Type 0 where
  pub absent : get headers (codes "Content-Type") ≡ [] → content_type ≡ none
  pub given :
      (type : Bytes)
      → type ≢ []
      → (get headers (codes "Content-Type") ≡ type) ↔ (content_type ≡ some type)

content_type_of-IsTypeOf : (headers : Header) → IsTypeOf headers (content_type_of headers)
content_type_of-IsTypeOf headers =
    let iff = bytes_beq_iff (get headers (codes "Content-Type")) [] in
    record { absent = λ e. ground (arith, iff); given = λ type some_type. ground (arith, iff) }

-- An object with a header's labels: the fields of the allowlist, and the content type.
pub record IsLabelledBy (j : Json) (headers : Header) (o : Object) : Type 0 where
  pub after : Header
  pub read : metadata_to_header j o.metadata ≡ ok after
  pub keeps : (name : Bytes) → values after name ≡ kept headers name
  pub content_type : IsTypeOf headers o.content_type

pub labelled :
    (j : Json) (headers : Header) (k : IsKeptLow j headers) (o : Object)
    → o.metadata ≡ renamed (map lower) k.metadata
    → o.content_type ≡ content_type_of headers
    → IsLabelledBy j headers o
labelled j headers k o e ct = record {
  after = k.after;
  read = ap (metadata_to_header j) e ∙ k.read;
  keeps = k.keeps;
  content_type = subst (IsTypeOf headers) (sym ct) (content_type_of-IsTypeOf headers);
}

pub wrap_place-ok :
    (message : Bytes) (p : Place) (r : Result (Unit {0}))
    → wrap_place message p r ≡ ok tt
    → r ≡ ok tt
wrap_place-ok message p (ok u) e = refl
wrap_place-ok message p (err f) e = cc

module _ {State : Type 0} (api : Api State) (object : State → Place → Option Object)
    (s3 : IsS3 api object) (j : Json) (c : HttpCache) where
  -- The object of a key after a write.
  pub record IsWritten (key : CacheKey) (headers : Header) (body : Bytes) (s : State) : Type 0 where
    pub found : Object
    pub holds : object s (place_of c key) ≡ some found
    pub body_is : found.body ≡ body
    pub labels : IsLabelledBy j headers found

  module _ (key : CacheKey) (headers : Header) (body : Bytes) (s : State)
      (canonical : IsCanonical headers) (survives : AllSurvive j headers) where
    k : IsKeptLow j headers
    k = kept_low j headers canonical survives

    i : UploadInput
    i = upload_input api j c key headers body k.metadata

    IsWritten-from :
        (s' : State) (o : Object)
        → object s' (place_of c key) ≡ some o
        → IsUpload i o
        → IsWritten key headers body s'
    unfolding i upload_input
    IsWritten-from s' o holds u = record {
      found = o;
      holds = holds;
      body_is = u.body;
      labels = labelled j headers k o u.metadata u.content_type;
    }

    put-state : (put api j c key headers body s).1 ≡ (api.upload_object s i).1
    unfolding put upload_with i
    put-state = rw k.written refl

    -- A write changes its own object only, and leaves that as it was or writes it whole.
    pub put_effect :
        (object (put api j c key headers body s).1 (place_of c key) ≡ object s (place_of c key))
        ⊎ IsWritten key headers body (put api j c key headers body s).1
    unfolding i upload_input
    put_effect = rw put-state (elim (s3.upload_effect s i) [
      | inl same ↦ inl same
      | inr (o, holds, u) ↦ inr (IsWritten-from _ o holds u)
    ])

    pub put_other :
        (p : Place) → p ≢ place_of c key → object (put api j c key headers body s).1 p ≡ object s p
    unfolding i upload_input
    put_other p ne = rw put-state (s3.upload_other s i p ne)

    -- A write that succeeds has written.
    pub put_ok :
        (put api j c key headers body s).0 ≡ ok tt
        → IsWritten key headers body (put api j c key headers body s).1
    unfolding put upload_with i upload_input
    put_ok = rw k.written λ e.
        let (o, holds, u) = s3.upload_ok s i (wrap_place-ok _ _ (api.upload_object s i).0 e) in
        IsWritten-from _ o holds u
