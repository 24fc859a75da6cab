-- ===== src/Fleet/Steps.antt =====
-- The steps of the instances. A call of the service is one step, and stands between any others: a
-- touch may come long after the lookup whose entry it is given.
use external_mirror_cache.Base.{In, ◌≡◌, List, [], ◌∷◌, Bytes, some}
use external_mirror_cache.Go.Header.{Header, IsCanonical}
use external_mirror_cache.Errors.{ok}
use external_mirror_cache.Cache.{CacheKey, CachedEntry}
use external_mirror_cache.Cache.Distinct.{IsKey}
use external_mirror_cache.Freshness.Merge.{merge}
use external_mirror_cache.Server.World.{Services, History, touched, clock}
use external_mirror_cache.Server.Fetch.{Middleware, maybe_touch}
use external_mirror_cache.Server.Touch.{etag}
use external_mirror_cache.S3.Metadata.{Json}
use external_mirror_cache.S3.MetadataText.{AllSurvive}
use external_mirror_cache.S3.Api.{Api, Place}
use external_mirror_cache.S3.Store.{HttpCache, place_of, put, head, touch}

-- That a body was written under an ETag.
pub record Label : Type 0 where
  pub place : Place
  pub body : Bytes
  pub tag : Bytes

-- The state of the service, with what was ever written and seen.
pub record World (State : Type 0) : Type 0 where
  pub state : State
  pub wrote : List Label
  pub seen : List (CacheKey × CachedEntry)

-- A run of `maybeTouch` that asked the cache to touch the entry.
pub record IsAsked (key : CacheKey) (entry : CachedEntry) (validating : Header) : Type 0 where
  pub services : Services
  pub middleware : Middleware
  pub key_headers : List Bytes
  pub before : History
  pub asked :
      (maybe_touch services middleware key (some entry) validating key_headers before).1
      ≡ touched key entry (merge entry.headers validating) ∷ clock ∷ before

module _ {State : Type 0} (api : Api State) (j : Json) (c : HttpCache) where
  pub data Step (w : World State) : World State → Type 0 where
    -- some instance writes a response
    writes :
        (key : CacheKey) (headers : Header) (body : Bytes)
        → IsKey key
        → IsCanonical headers
        → AllSurvive j headers
        → Step w (record {
          state = (put api j c key headers body w.state).1;
          wrote = record { place = place_of c key; body = body; tag = etag headers } ∷ w.wrote;
          seen = w.seen;
        })
    -- some instance looks an entry up
    looks :
        (key : CacheKey) (entry : CachedEntry)
        → head api j c key w.state ≡ ok (some entry)
        → Step w (record w { seen = (key, entry) ∷ w.seen })
    -- some instance touches an entry that it has seen
    touches :
        (key : CacheKey) (entry : CachedEntry) (validating : Header)
        → IsKey key
        → In (key, entry) w.seen
        → IsCanonical validating
        → AllSurvive j (merge entry.headers validating)
        → IsAsked key entry validating
        → Step w (record w {
          state = (touch api j c key entry (merge entry.headers validating) w.state).1;
        })

  -- From an initial state of the service.
  pub data Reach (initial : State) : World State → Type 0 where
    start : Reach initial (record { state = initial; wrote = []; seen = [] })
    later : {w w' : World State} → Reach initial w → Step w w' → Reach initial w'
