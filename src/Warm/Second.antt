-- ===== src/Warm/Second.antt =====
-- A response that was fetched and kept is served again from the bucket.
use external_mirror_cache.Base.{
  ◌≡◌, refl, ap, ◌∙◌, arith, true, nat_eq, List, ◌∷◌, ◌++◌, Bytes, bytes_eq, Option, none, some,
}
use external_mirror_cache.Go.Header.{Header, IsCanonical, get, or_empty}
use external_mirror_cache.Go.Url.{url_string}
use external_mirror_cache.Errors.{ok}
use external_mirror_cache.Cache.{CacheKey, CachedEntry}
use external_mirror_cache.Freshness.Evaluate.{evaluate, Decision}
use external_mirror_cache.Server.World.{
  Services, History, Response, UpstreamRequest, headed, sent, stored, clock, decided, fresh, cached,
}
use external_mirror_cache.Server.Validators.{
  etag_strong_match, upstream_unchanged, upstream_header, build_upstream_request,
}
use external_mirror_cache.Server.Fetch.{
  Middleware, head_entry, presign, evaluate_freshness, on_response, after_put, after_send,
  fetch_upstream, fetch_and_cache,
}
use external_mirror_cache.Server.Legacy.{fetch_and_cache_fresh}
use external_mirror_cache.S3.Metadata.{Json}
use external_mirror_cache.S3.MetadataText.{AllSurvive}
use external_mirror_cache.S3.Api.{Api, Object, Place, IsS3}
use external_mirror_cache.S3.Store.{HttpCache, place_of, head}
use external_mirror_cache.S3.Stored.{IsWritten, put_ok}
use external_mirror_cache.S3.Looked.{head-IsWritten}
use external_mirror_cache.Warm.Services.{Outside, over_s3, state_after}
use external_mirror_cache.Warm.Same.{evaluate-IsSame, kept-IsSame}
use external_mirror_cache.Warm.Apart.{IsQuiet, quiet-apart}

unchanged-none : (resp : Response) → upstream_unchanged resp none ≡ none
unfolding upstream_unchanged etag_strong_match get
unchanged-none resp = ground arith

-- The request for a key of which nothing is cached.
abbrev pub first_request : CacheKey → Bytes → UpstreamRequest
first_request key accept = record { url = url_string key.url; header = upstream_header accept none }

-- Upstream answers the first request for a key with a 200, and the answer is kept.
pub record IsFirst (svc : Services) (m : Middleware) (key : CacheKey) (accept : Bytes)
    (resp : Response) (h : History) : Type 0 where
  pub missed : (head_entry svc m key h).0 ≡ none
  pub well_formed : svc.new_request_error (url_string key.url) ≡ none
  pub answered : svc.client_do (headed key ∷ h) (first_request key accept) ≡ ok resp
  pub status_ok : resp.status ≡ 200
  pub written :
      svc.put (sent (first_request key accept) ∷ headed key ∷ h) key resp.header resp.body ≡ ok tt

abbrev pub after_first : CacheKey → Bytes → Response → History → History
after_first key accept resp h =
    decided cached
    ∷ stored key resp.header resp.body
    ∷ sent (first_request key accept)
    ∷ headed key
    ∷ h

pub fetch_and_cache_first :
    (svc : Services) (m : Middleware) (key : CacheKey) (accept : Bytes) (key_headers : List Bytes)
    (resp : Response) (h : History)
    → IsFirst svc m key accept resp h
    → fetch_and_cache svc m key accept key_headers h
      ≡ presign svc m key (after_first key accept resp h)
unfolding fetch_and_cache head_entry evaluate_freshness build_upstream_request fetch_upstream
    after_send on_response after_put
fetch_and_cache_first svc m key accept key_headers resp h w =
    rw (w.missed, w.well_formed, w.answered, unchanged-none resp, w.status_ok, w.written) refl

module _ {State : Type 0} (api : Api State) (object : State → Place → Option Object)
    (s3 : IsS3 api object) (j : Json) (c : HttpCache) where
  IsWritten-same :
      (key : CacheKey) (headers : Header) (body : Bytes) (s s' : State)
      → object s' (place_of c key) ≡ object s (place_of c key)
      → IsWritten api object s3 j c key headers body s
      → IsWritten api object s3 j c key headers body s'
  IsWritten-same key headers body s s' same w = record {
    found = w.found;
    holds = same ∙ w.holds;
    body_is = w.body_is;
    labels = w.labels;
  }

  module _ (initial : State) (o : Outside) (m : Middleware) (key : CacheKey) (accept : Bytes)
      (key_headers : List Bytes) (resp : Response) (h between : History) where
    abbrev svc : Services
    svc = over_s3 api j c initial o

    -- The history of the first run, and of the calls that came after it.
    abbrev pub since_first : History
    since_first = between ++ (fetch_and_cache svc m key accept key_headers h).1

    abbrev at_second : State
    at_second = state_after api j c initial since_first

    first-IsWritten :
        IsCanonical resp.header
        → AllSurvive j resp.header
        → IsFirst svc m key accept resp h
        → IsWritten api object s3 j c key resp.header resp.body
            (state_after api j c initial (fetch_and_cache svc m key accept key_headers h).1)
    unfolding state_after presign
    first-IsWritten canonical survives first =
        rw (fetch_and_cache_first svc m key accept key_headers resp h first) (
          put_ok api object s3 j c key resp.header resp.body (state_after api j c initial h)
            canonical survives first.written)

    second-IsWritten :
        IsCanonical resp.header
        → AllSurvive j resp.header
        → IsFirst svc m key accept resp h
        → IsQuiet c (place_of c key) between
        → IsWritten api object s3 j c key resp.header resp.body at_second
    second-IsWritten canonical survives first quiet =
        IsWritten-same key resp.header resp.body _ _
          (quiet-apart api object s3 j c initial (place_of c key) between _ quiet)
          (first-IsWritten canonical survives first)

    -- The second request for a key, over the S3 cache on a service that keeps the laws
    -- of `IsS3`. A first run of `fetchAndCache` found nothing in
    -- the bucket, could build its request, got a 200 from upstream, whose field names are canonical
    -- and distinct and whose lists of values JSON reads back as it wrote them, and its write
    -- succeeded. Since then nothing was written or touched under the path of the key. Where the
    -- setting honors freshness, the lookup of the second run answers with an entry, and the headers
    -- that upstream sent are fresh, counted from the time at which the object was stored, at the
    -- instant of the second run, this does not ask upstream: it is the lookup, the clock, one log line
    -- and the signature. The object behind the URL has the body that upstream sent.
    pub second_fetch :
        (accept' : Bytes) (key_headers' : List Bytes) (entry : CachedEntry)
        → IsCanonical resp.header
        → AllSurvive j resp.header
        → IsFirst svc m key accept resp h
        → IsQuiet c (place_of c key) between
        → m.honor_freshness ≡ true
        → head api j c key at_second ≡ ok (some entry)
        → (evaluate o.std resp.header entry.stored_at
            (o.time_now (headed key ∷ since_first))
            m.freshness_cap
            key_headers').fresh
          ≡ true
        → (fetch_and_cache svc m key accept' key_headers' since_first
            ≡ presign svc m key (decided fresh ∷ clock ∷ headed key ∷ since_first))
          × ((kept : Object) × (object at_second (place_of c key) ≡ some kept)
              × (kept.body ≡ resp.body))
    second_fetch accept' key_headers' entry canonical survives first quiet on found is_fresh =
        let w = second-IsWritten canonical survives first quiet in
        let keeps =
          (head-IsWritten api object s3 j c key resp.header resp.body _ entry w found).0 in
        let same =
          evaluate-IsSame o.std (or_empty entry.headers) resp.header entry.stored_at
            (o.time_now (headed key ∷ since_first)) m.freshness_cap key_headers'
            (kept-IsSame _ _ keeps) in
        (
          fetch_and_cache_fresh svc m key accept' key_headers' since_first entry on found
              (ap (λ (d : Decision). d.fresh) same ∙ is_fresh),
          (w.found, w.holds, w.body_is),
        )
