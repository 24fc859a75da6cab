-- ===== src/Warm/Apart.antt =====
-- What other calls leave alone: the object of a key, as long as no write and no touch has its place.
use external_mirror_cache.Base.{
  ◌≡◌, ◌≢◌, ◌∙◌, refl, Bool-cases, inl, inr, [], ◌∷◌, ◌++◌, Bytes, Option,
}
use external_mirror_cache.Base.Int.{ltb_ℤ}
use external_mirror_cache.Go.Header.{Header}
use external_mirror_cache.Errors.{Result-cases}
use external_mirror_cache.Cache.{CacheKey, CachedEntry}
use external_mirror_cache.Server.World.{
  History, Event, stored, touched, headed, presigned, sent, clock, decided,
}
use external_mirror_cache.S3.Metadata.{Json, header_to_metadata}
use external_mirror_cache.S3.Api.{Api, Object, Place, IsS3}
use external_mirror_cache.S3.Store.{
  HttpCache, place_of, put, upload_with, upload_input, touch, copy_with, copy_input,
  copy_object_size_limit,
}
use external_mirror_cache.Warm.Services.{state_after, after_event}

module _ (c : HttpCache) (p : Place) where
  -- The call does not change the object of the place.
  abbrev pub IsApart : Event → Type 0
  IsApart (stored key headers body) = p ≢ place_of c key
  IsApart (touched key entry headers) = p ≢ place_of c key
  IsApart _ = Unit

  abbrev pub IsQuiet : History → Type 0
  IsQuiet [] = Unit
  IsQuiet (e ∷ h) = IsApart e × IsQuiet h

module _ {State : Type 0} (api : Api State) (object : State → Place → Option Object)
    (s3 : IsS3 api object) (j : Json) (c : HttpCache) where
  put-apart :
      (key : CacheKey) (headers : Header) (body : Bytes) (s : State) (p : Place)
      → p ≢ place_of c key
      → object (put api j c key headers body s).1 p ≡ object s p
  unfolding put upload_with upload_input
  put-apart key headers body s p ne = elim (Result-cases (header_to_metadata j headers)) [
    | inl (metadata, e) ↦
        rw e (s3.upload_other s (upload_input api j c key headers body metadata) p ne)
    | inr (f, e) ↦ rw e refl
  ]

  touch-apart :
      (key : CacheKey) (entry : CachedEntry) (headers : Header) (s : State) (p : Place)
      → p ≢ place_of c key
      → object (touch api j c key entry headers s).1 p ≡ object s p
  unfolding touch copy_with copy_input
  touch-apart key entry headers s p ne =
      elim (Bool-cases (ltb_ℤ copy_object_size_limit entry.size)) [
        | inl large ↦ rw large refl
        | inr small ↦ rw small (elim (Result-cases (header_to_metadata j headers)) [
          | inl (metadata, e) ↦
              rw e (s3.copy_other s (copy_input api j c key entry headers metadata) p ne)
          | inr (f, e) ↦ rw e refl
        ])
      ]

  event-apart :
      (p : Place) (e : Event) (s : State)
      → IsApart c p e
      → object (after_event api j c e s) p ≡ object s p
  event-apart p (stored key headers body) s ne = put-apart key headers body s p ne
  event-apart p (touched key entry headers) s ne = touch-apart key entry headers s p ne
  event-apart p (headed key) s ne = refl
  event-apart p (presigned key) s ne = refl
  event-apart p (sent req) s ne = refl
  event-apart p clock s ne = refl
  event-apart p (decided a) s ne = refl

  pub quiet-apart :
      (initial : State) (p : Place) (between h : History)
      → IsQuiet c p between
      → object (state_after api j c initial (between ++ h)) p
        ≡ object (state_after api j c initial h) p
  unfolding state_after
  quiet-apart initial p [] h quiet = refl
  quiet-apart initial p (e ∷ between) h quiet =
      event-apart p e (state_after api j c initial (between ++ h)) quiet.0
      ∙ quiet-apart initial p between h quiet.1
