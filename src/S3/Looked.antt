-- ===== src/S3/Looked.antt =====
-- What `Head` says of the bucket.
use external_mirror_cache.Base.{◌≡◌, refl, sym, ap, ◌∙◌, arith, Bytes, Option, some, subst}
use external_mirror_cache.Go.Header.{Header, IsCanonical, values, or_empty}
use external_mirror_cache.Errors.{Result, ok, err, ok-injective}
use external_mirror_cache.Cache.{CacheKey, CachedEntry}
use external_mirror_cache.S3.Metadata.{Json, metadata_to_header}
use external_mirror_cache.S3.MetadataText.{AllSurvive}
use external_mirror_cache.S3.MetadataTrip.{kept}
use external_mirror_cache.S3.Api.{Api, Object, Place, HeadOutput, view, IsS3}
use external_mirror_cache.S3.Store.{HttpCache, place_of, entry_of, with_headers, on_head, head, put}
use external_mirror_cache.S3.Stored.{IsTypeOf, IsWritten, put_ok}

-- The entry of an object, with headers read from its metadata.
pub record IsEntryOf (o : Object) (headers : Header) (e : CachedEntry) : Type 0 where
  pub headers_are : e.headers ≡ some headers
  pub stored_at : e.stored_at ≡ o.last_modified
  pub object_etag : e.object_etag ≡ o.etag
  pub size : e.size ≡ o.size

module _ {State : Type 0} (api : Api State) (object : State → Place → Option Object)
    (s3 : IsS3 api object) (j : Json) (c : HttpCache) where
  -- What a lookup found.
  pub record IsFound (key : CacheKey) (s : State) (e : CachedEntry) : Type 0 where
    pub found : Object
    pub headers : Header
    pub holds : object s (place_of c key) ≡ some found
    pub read : metadata_to_header j found.metadata ≡ ok headers
    pub is_entry : IsEntryOf found headers e

  with_headers-IsFound :
      (key : CacheKey) (s : State) (e : CachedEntry) (o : Object) (out : HeadOutput)
      (headers : Result Header)
      → object s (place_of c key) ≡ some o
      → out ≡ view o
      → metadata_to_header j o.metadata ≡ headers
      → with_headers out headers ≡ ok (some e)
      → IsFound key s e
  with_headers-IsFound key s e o out (err f) holds is read h = absurd (cc)
  with_headers-IsFound key s e o out (ok headers) holds is read h =
      let same : entry_of out headers ≡ e = cc in
      record {
        found = o;
        headers = headers;
        holds = holds;
        read = read;
        is_entry = subst (IsEntryOf o headers) same (
            rw is
              (record { headers_are = refl; stored_at = refl; object_etag = refl; size = refl }));
      }

  -- A hit is an object of the bucket.
  pub head-IsFound :
      (key : CacheKey) (s : State) (e : CachedEntry)
      → head api j c key s ≡ ok (some e)
      → IsFound key s e
  unfolding head
  head-IsFound key s e = go (api.head_object s (place_of c key)) refl
    where
      go :
          (r : Result HeadOutput)
          → api.head_object s (place_of c key) ≡ r
          → on_head api j c (place_of c key) r ≡ ok (some e)
          → IsFound key s e
      go (err f) answer h = unfold on_head in absurd (ground arith)
      go (ok out) answer h =
          let (o, holds, is) = s3.head_ok s (place_of c key) out answer in
          with_headers-IsFound key s e o out (metadata_to_header j o.metadata) holds is refl (
            subst
              (λ (v : HeadOutput). with_headers out (metadata_to_header j v.metadata) ≡ ok (some e))
              is (unfold on_head in h))

  same_object :
      (s : State) (p : Place) {o u : Object} → object s p ≡ some o → object s p ≡ some u → o ≡ u
  same_object s p e f = cc

  -- A response that was written and then found, its object unchanged in between: the entry has for
  -- each name the values of the response where the allowlist has it, and else none.
  pub head-IsWritten :
      (key : CacheKey) (headers : Header) (body : Bytes) (s : State) (e : CachedEntry)
      → IsWritten api object s3 j c key headers body s
      → head api j c key s ≡ ok (some e)
      → ((name : Bytes) → values (or_empty e.headers) name ≡ kept headers name)
        × ((o : Object) → object s (place_of c key) ≡ some o → e.stored_at ≡ o.last_modified)
  head-IsWritten key headers body s e w h =
      let f = head-IsFound key s e h in
      let same = same_object s (place_of c key) f.holds w.holds in
      let read : ok f.headers ≡ ok w.labels.after =
        sym f.read ∙ ap (λ (o : Object). metadata_to_header j o.metadata) same ∙ w.labels.read in
      let after = ok-injective f.headers w.labels.after read in
      (
        λ name. rw (f.is_entry.headers_are, after) (w.labels.keeps name),
        λ o held.
            f.is_entry.stored_at
            ∙ ap (λ (u : Object). u.last_modified) (same_object s (place_of c key) f.holds held),
      )

  -- On a service that keeps the laws of `IsS3`: a response whose field names are canonical and distinct, and whose lists of values JSON reads
  -- back as it wrote them, is written by a `Put` that succeeds: the object has its body, and for
  -- content type the first value of its Content-Type where that is not empty, and else none. A
  -- lookup right after it that finds an entry reads under each name the values of the response where
  -- the allowlist has the name, and else none, and the time at which the service stored the object.
  pub head-put :
      (key : CacheKey) (headers : Header) (body : Bytes) (s : State)
      → IsCanonical headers
      → AllSurvive j headers
      → (put api j c key headers body s).0 ≡ ok tt
      → let s' : State = (put api j c key headers body s).1 in
        (o : Object) × (object s' (place_of c key) ≡ some o)
        × (o.body ≡ body)
        × IsTypeOf headers o.content_type
        × ((e : CachedEntry)
            → head api j c key s' ≡ ok (some e)
            → ((name : Bytes) → values (or_empty e.headers) name ≡ kept headers name)
              × (e.stored_at ≡ o.last_modified))
  head-put key headers body s canonical survives done =
      let w = put_ok api object s3 j c key headers body s canonical survives done in
      (
        w.found,
        w.holds,
        w.body_is,
        w.labels.content_type,
        λ e h.
            let both = head-IsWritten key headers body _ e w h in (both.0, both.1 w.found w.holds),
      )
