-- ===== src/S3/Touched.antt =====
-- What `Touch` leaves in the bucket.
use external_mirror_cache.Base.{
  Bool, ◌≡◌, ◌≢◌, ◌⊎◌, inl, inr, refl, ap, true, false, ◌++◌, codes, Option, some, Bool-cases, map,
}
use external_mirror_cache.Base.Int.{pos, ltb_ℤ}
use external_mirror_cache.Go.Strings.{lower}
use external_mirror_cache.Go.Header.{Header, IsCanonical}
use external_mirror_cache.Go.Escape.{is_bytes}
use external_mirror_cache.Errors.{Error, Result, ok, err}
use external_mirror_cache.Cache.{CacheKey, CachedEntry}
use external_mirror_cache.Cache.Distinct.{IsKey}
use external_mirror_cache.S3.Metadata.{Json}
use external_mirror_cache.S3.MetadataText.{AllSurvive}
use external_mirror_cache.S3.MetadataTrip.{IsKeptAs}
use external_mirror_cache.S3.CopySource.{query_decode}
use external_mirror_cache.S3.PathBytes.{copy_source_lem}
use external_mirror_cache.S3.Api.{Api, Object, Place, CopyInput, IsCopy, IsS3}
use external_mirror_cache.S3.Stored.{kept_low, IsLabelledBy, labelled, wrap_place-ok}
use external_mirror_cache.S3.Store.{HttpCache, place_of, wrap_place, touch, copy_with, copy_input}

module _ {State : Type 0} (api : Api State) (object : State → Place → Option Object)
    (s3 : IsS3 api object) (j : Json) (c : HttpCache) (bucket_bytes : is_bytes c.bucket ≡ true)
    (prefix_bytes : is_bytes c.prefix ≡ true) (key : CacheKey) (is_key : IsKey key)
    (entry : CachedEntry) (headers : Header) (canonical : IsCanonical headers)
    (survives : AllSurvive j headers) where
  k : IsKeptAs (map lower) j headers
  k = kept_low j headers canonical survives

  i : CopyInput
  i = copy_input api j c key entry headers k.metadata

  -- The object had the ETag of the entry; it has its body still, and the labels of the headers.
  pub record IsTouched (s s' : State) : Type 0 where
    pub old : Object
    pub new : Object
    pub held : object s (place_of c key) ≡ some old
    pub holds : object s' (place_of c key) ≡ some new
    pub matched : old.etag ≡ entry.object_etag
    pub body : new.body ≡ old.body
    pub labels : IsLabelledBy j headers new

  abbrev too_large : Bool
  too_large = ltb_ℤ (pos 5368709120) entry.size

  abbrev done : State → Result (Unit {0}) × State
  done s = touch api j c key entry headers s

  copied :
      (s s' : State) (old new : Object)
      → object s (place_of c key) ≡ some old
      → object s' (place_of c key) ≡ some new
      → IsCopy i old new
      → IsTouched s s'
  unfolding i copy_input
  copied s s' old new held holds w = record {
    old = old;
    new = new;
    held = held;
    holds = holds;
    matched = w.matched;
    body = w.body;
    labels = labelled j headers k new w.metadata w.content_type;
  }

  touch-skip : (s : State) → too_large ≡ true → done s ≡ (ok tt, s)
  unfolding touch
  touch-skip s large = rw large refl

  touch-copy :
      (s : State)
      → too_large ≡ false
      → done s ≡ (
        wrap_place (codes "CopyObject(%s, %s)") (place_of c key) (api.copy_object s i).0,
        (api.copy_object s i).1,
      )
  unfolding touch copy_with i
  touch-copy s small = rw (small, k.written) refl

  onto_itself : query_decode i.copy_source ≡ i.place.bucket ++ (codes "/" ++ i.place.path)
  unfolding i copy_input
  onto_itself = copy_source_lem c.bucket c.prefix key bucket_bytes prefix_bytes is_key

  -- What a touch may do, from any state of the service.
  pub record IsGuarded (s : State) : Type 0 where
    pub others : (p : Place) → p ≢ place_of c key → object (done s).1 p ≡ object s p
    pub outcome :
        (object (done s).1 (place_of c key) ≡ object s (place_of c key)) ⊎ IsTouched s (done s).1
    pub success :
        (done s).0 ≡ ok tt → ((too_large ≡ true) × ((done s).1 ≡ s)) ⊎ IsTouched s (done s).1
    pub refused :
        too_large ≡ false
        → ((o : Object) → object s (place_of c key) ≡ some o → o.etag ≢ entry.object_etag)
        → ((e : Error) × ((done s).0 ≡ err e))
          × (object (done s).1 (place_of c key) ≡ object s (place_of c key))

  skip-IsGuarded : (s : State) → too_large ≡ true → IsGuarded s
  skip-IsGuarded s large = record {
    others = λ p ne. rw (touch-skip s large) refl;
    outcome = inl (rw (touch-skip s large) refl);
    success = λ e. inl (large, ap (λ (d : Result (Unit {0}) × State). d.1) (touch-skip s large));
    refused = λ small differs. absurd (cc);
  }

  copy_outcome :
      (s : State)
      → (object (api.copy_object s i).1 (place_of c key) ≡ object s (place_of c key))
        ⊎ IsTouched s (api.copy_object s i).1
  unfolding i copy_input
  copy_outcome s = elim (s3.copy_effect s i onto_itself) [
    | inl same ↦ inl same
    | inr (old, new, held, holds, w) ↦ inr (copied s _ old new held holds w)
  ]

  copy_success :
      (s : State)
      → wrap_place (codes "CopyObject(%s, %s)") (place_of c key) (api.copy_object s i).0 ≡ ok tt
      → IsTouched s (api.copy_object s i).1
  unfolding i copy_input
  copy_success s e =
      let (old, new, held, holds, w) =
        s3.copy_ok s i onto_itself (wrap_place-ok _ _ (api.copy_object s i).0 e) in
      copied s _ old new held holds w

  copy_others :
      (s : State) (p : Place) → p ≢ place_of c key → object (api.copy_object s i).1 p ≡ object s p
  unfolding i copy_input
  copy_others s p ne = s3.copy_other s i p ne

  copy_refused :
      (s : State)
      → ((o : Object) → object s (place_of c key) ≡ some o → o.etag ≢ entry.object_etag)
      → ((e : Error) × (wrap_place
              (codes "CopyObject(%s, %s)")
              (place_of c key)
              (api.copy_object s i).0
            ≡ err e))
        × (object (api.copy_object s i).1 (place_of c key) ≡ object s (place_of c key))
  copy_refused s differs = (
    fails _ (λ e. let t = copy_success s e in differs t.old t.held t.matched),
    elim (copy_outcome s) [ inl same ↦ same | inr t ↦ absurd (differs t.old t.held t.matched) ],
  )
    where
      fails : (r : Result (Unit {0})) → r ≢ ok tt → (e : Error) × (r ≡ err e)
      fails (ok u) ne = absurd (ne refl)
      fails (err e) ne = (e, refl)

  -- On a service that keeps the laws of `IsS3`, with a bucket name and a prefix of bytes, a valid key
  -- (`IsKey`), and headers whose field names are
  -- canonical and distinct and whose lists of values JSON reads back as it wrote them: a touch changes
  -- no other object. Its own object stays as it is, or else it had the ETag of the entry, keeps its
  -- body, and gets the labels of the headers: under each name of the allowlist their values, and for
  -- content type the first value of their Content-Type where that is not empty, and else none. A touch
  -- that succeeds has done that, or the entry is larger than 5368709120 bytes and it has done nothing.
  -- Where the object is gone or has another ETag, a touch that is not too large fails and changes
  -- nothing.
  pub touch-IsGuarded : (s : State) → IsGuarded s
  touch-IsGuarded s = elim (Bool-cases too_large) [
    | inl large ↦ skip-IsGuarded s large
    | inr small ↦ record {
      others = λ p ne. rw (touch-copy s small) (copy_others s p ne);
      outcome = rw (touch-copy s small) (copy_outcome s);
      success = rw (touch-copy s small) (λ e. inr (copy_success s e));
      refused = λ _ differs. rw (touch-copy s small) (copy_refused s differs);
    }
  ]
