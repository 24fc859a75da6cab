-- ===== src/Server/Fetch.antt =====
-- server.go: `fetchAndCache`, and the methods that it calls.
use external_mirror_cache.Base.{
  Bool, false, not, ◌&&◌, List, [], ◌∷◌, Option, none, some, Bytes, codes, ◌==◌, nat_eq, bytes_eq,
  if◌then◌else◌, ℕ,
}
use external_mirror_cache.Go.Header.{Header, get, or_empty}
use external_mirror_cache.Go.Url.{url_string}
use external_mirror_cache.Errors.{upstream, wrapped, Result, ok, err}
use external_mirror_cache.Fallback.{FallbackPolicy, should_fallback, is_some}
use external_mirror_cache.Cache.{CacheKey, CachedEntry}
use external_mirror_cache.Freshness.Evaluate.{Duration, Decision, evaluate}
use external_mirror_cache.Freshness.Merge.{merge}
use external_mirror_cache.Server.World.{
  Services, M, pure, ◌>>=◌, ◌>>◌, call, decide, headed, presigned, stored, touched, sent, clock,
  fresh, stale, error, revalidated, refreshed, cached, Response, UpstreamRequest,
}
use external_mirror_cache.Server.Validators.{
  etag_strong_match, upstream_unchanged, build_upstream_request,
}

-- The fields of cacheMiddleware that are settings.
pub record Middleware : Type 0 where
  pub fallback : FallbackPolicy
  pub honor_freshness : Bool
  pub freshness_cap : Duration

abbrev miss_on_error : Result (Option CachedEntry) → Option CachedEntry
miss_on_error (ok entry) = entry
miss_on_error (err e) = none

abbrev pub headers_of : Option CachedEntry → Option Header
headers_of none = none
headers_of (some entry) = entry.headers

abbrev wrap_presign : Bytes → Result Bytes → Result Bytes
wrap_presign url (ok u) = ok u
wrap_presign url (err e) = err (wrapped (codes "presign %s") (url ∷ []) e)

module _ (svc : Services) (m : Middleware) where
  unfoldable pub head_entry : CacheKey → M (Option CachedEntry)
  head_entry key = do found ← call (headed key) (λ h. svc.head h key); pure (miss_on_error found)

  unfoldable pub presign : CacheKey → M (Result Bytes)
  presign key = do
    u ← call (presigned key) (λ h. svc.get_presigned_url h key)
    pure (wrap_presign (url_string key.url) u)

  -- `none` where the gate is not evaluated.
  unfoldable pub evaluate_freshness : Option CachedEntry → List Bytes → M (Option Decision)
  evaluate_freshness none key_headers = pure none
  evaluate_freshness (some entry) key_headers = if not m.honor_freshness then pure none else do
    now ← call clock svc.time_now
    pure (
        some (
          evaluate svc.std (or_empty entry.headers) entry.stored_at now m.freshness_cap
            key_headers))

  -- The touch itself, once the validator is known to be the stored one. Its error is dropped.
  unfoldable pub touch_if_fresh : CacheKey → CachedEntry → Header → List Bytes → M (Unit {0})
  touch_if_fresh key entry validating key_headers = do
    let merged = merge entry.headers validating
    now ← call clock svc.time_now
    let decision = evaluate svc.std merged now now m.freshness_cap key_headers
    if not decision.fresh then pure tt else do
      result ← call (touched key entry merged) (λ h. svc.touch h key entry merged)
      pure tt

  unfoldable pub maybe_touch : CacheKey → Option CachedEntry → Header → List Bytes → M (Unit {0})
  maybe_touch key none validating key_headers = pure tt
  maybe_touch key (some entry) validating key_headers =
      let vet = get validating (codes "ETag") in
      let cached_etag = get (or_empty entry.headers) (codes "ETag") in
      if not m.honor_freshness
      then pure tt
      else if not (vet == []) && not (etag_strong_match cached_etag vet)
      then pure tt
      else touch_if_fresh key entry validating key_headers

  unfoldable pub handle_non200 : CacheKey → ℕ → Bool → M (Result Bytes)
  handle_non200 key status conditional_fetch =
      if conditional_fetch && should_fallback m.fallback none status
      then (do decide stale; presign key)
      else (do decide error; pure (err (upstream status (url_string key.url))))

  unfoldable pub after_put : CacheKey → Bool → Result (Unit {0}) → M (Result Bytes)
  after_put key conditional_fetch (err e) =
      pure (err (wrapped (codes "cache %s") (url_string key.url ∷ []) e))
  after_put key conditional_fetch (ok _) = do
    decide (if conditional_fetch then refreshed else cached)
    presign key

  unfoldable pub on_response :
      CacheKey → List Bytes → Option CachedEntry → Response → Option Bytes → M (Result Bytes)
  on_response key key_headers entry resp (some reason) = do
    decide revalidated
    maybe_touch key entry resp.header key_headers
    presign key
  on_response key key_headers entry resp none =
      if not (resp.status == 200) then handle_non200 key resp.status (is_some entry) else do
        result ← call (stored key resp.header resp.body) (λ h. svc.put h key resp.header resp.body)
        after_put key (is_some entry) result

  unfoldable pub after_send :
      CacheKey → List Bytes → Option CachedEntry → Result Response → M (Result Bytes)
  after_send key key_headers entry (err e) =
      if is_some entry && should_fallback m.fallback (some e) 0
      then (do decide stale; presign key)
      else (do
        decide error
        pure (err (wrapped (codes "fetch %s (no cache available)") (url_string key.url ∷ []) e)))
  after_send key key_headers entry (ok resp) =
      on_response key key_headers entry resp (upstream_unchanged resp (headers_of entry))

  unfoldable pub fetch_upstream :
      CacheKey → List Bytes → Option CachedEntry → Result UpstreamRequest → M (Result Bytes)
  fetch_upstream key key_headers entry (err e) = pure (err e)
  fetch_upstream key key_headers entry (ok req) = do
    answer ← call (sent req) (λ h. svc.client_do h req)
    after_send key key_headers entry answer

  abbrev pub says_fresh : Option Decision → Bool
  says_fresh none = false
  says_fresh (some decision) = decision.fresh

  unfoldable pub fetch_and_cache : CacheKey → Bytes → List Bytes → M (Result Bytes)
  fetch_and_cache key accept key_headers = do
    entry ← head_entry key
    gate ← evaluate_freshness entry key_headers
    if says_fresh gate
        then (do decide fresh; presign key)
        else (fetch_upstream key key_headers entry
            (build_upstream_request svc key.url accept (headers_of entry)))
