-- ===== src/Server/Legacy.antt =====
-- The freshness gate, on and off: what the fast path calls, and that nothing of it is left when the
-- setting is off.
use external_mirror_cache.Base.{
  ℕ, ◌≡◌, refl, arith, Bool, true, false, List, ◌∷◌, Bytes, Option, none, some,
}
use external_mirror_cache.Go.Header.{Header, or_empty}
use external_mirror_cache.Errors.{Result, ok, err}
use external_mirror_cache.Cache.{CacheKey, CachedEntry}
use external_mirror_cache.Freshness.Evaluate.{evaluate}
use external_mirror_cache.Server.World.{
  Services, History, headed, clock, decided, fresh, stale, revalidated, refreshed, cached, sent,
  stored, Response, UpstreamRequest,
}
use external_mirror_cache.Server.Validators.{upstream_unchanged, build_upstream_request}
use external_mirror_cache.Server.Fetch.{
  Middleware, headers_of, head_entry, presign, evaluate_freshness, maybe_touch, handle_non200,
  after_put, on_response, after_send, fetch_upstream, fetch_and_cache,
}
use external_mirror_cache.Fallback.{is_some}
use external_mirror_cache.Server.Trace.{count, is_clock, is_touched}

-- Where freshness is honored and the entry that the lookup finds is fresh at the instant of the
-- clock, `fetchAndCache` is the lookup, the clock, one log line and the signature: upstream is
-- not asked and nothing is written.
pub fetch_and_cache_fresh :
    (svc : Services) (m : Middleware) (key : CacheKey) (accept : Bytes) (key_headers : List Bytes)
    (h : History) (entry : CachedEntry)
    → m.honor_freshness ≡ true
    → svc.head h key ≡ ok (some entry)
    → (evaluate svc.std
        (or_empty entry.headers)
        entry.stored_at
        (svc.time_now (headed key ∷ h))
        m.freshness_cap
        key_headers).fresh
      ≡ true
    → fetch_and_cache svc m key accept key_headers h
      ≡ presign svc m key (decided fresh ∷ clock ∷ headed key ∷ h)
unfolding fetch_and_cache head_entry evaluate_freshness
fetch_and_cache_fresh svc m key accept key_headers h entry on found is_fresh = ground arith

module _ (svc : Services) (m : Middleware) (key : CacheKey) (off : m.honor_freshness ≡ false) where
  -- Neither the clock is read nor an entry touched between two histories.
  pub record IsLegacy (h h' : History) : Type 0 where
    pub no_clock : count is_clock h' ≡ count is_clock h
    pub no_touch : count is_touched h' ≡ count is_touched h

  presign-IsLegacy : (h : History) → IsLegacy h (presign svc m key h).1
  unfolding presign
  presign-IsLegacy h = ground arith

  maybe_touch-IsLegacy :
      (entry : Option CachedEntry) (validating : Header) (key_headers : List Bytes) (h : History)
      → (maybe_touch svc m key entry validating key_headers h).1 ≡ h
  unfolding maybe_touch
  maybe_touch-IsLegacy none validating key_headers h = refl
  maybe_touch-IsLegacy (some entry) validating key_headers h = ground arith

  handle_non200-IsLegacy :
      (status : ℕ) (conditional_fetch : Bool) (h : History)
      → IsLegacy h (handle_non200 svc m key status conditional_fetch h).1
  unfolding handle_non200
  handle_non200-IsLegacy status conditional_fetch h =
      ground (arith, presign-IsLegacy (decided stale ∷ h))

  after_put-IsLegacy :
      (conditional_fetch : Bool) (result : Result (Unit {0})) (h : History)
      → IsLegacy h (after_put svc m key conditional_fetch result h).1
  unfolding after_put
  after_put-IsLegacy conditional_fetch (err e) h = ground arith
  after_put-IsLegacy true (ok u) h = ground (arith, presign-IsLegacy (decided refreshed ∷ h))
  after_put-IsLegacy false (ok u) h = ground (arith, presign-IsLegacy (decided cached ∷ h))

  on_response-IsLegacy :
      (key_headers : List Bytes) (entry : Option CachedEntry) (resp : Response)
      (reason : Option Bytes) (h : History)
      → IsLegacy h (on_response svc m key key_headers entry resp reason h).1
  unfolding on_response
  on_response-IsLegacy key_headers entry resp (some reason) h =
      let h' : History = decided revalidated ∷ h in
      ground (
        arith,
        maybe_touch-IsLegacy entry resp.header key_headers h',
        presign-IsLegacy (maybe_touch svc m key entry resp.header key_headers h').1,
      )
  on_response-IsLegacy key_headers entry resp none h = ground (
    arith,
    handle_non200-IsLegacy resp.status (is_some entry) h,
    after_put-IsLegacy (is_some entry) (svc.put h key resp.header resp.body)
        (stored key resp.header resp.body ∷ h),
  )

  after_send-IsLegacy :
      (key_headers : List Bytes) (entry : Option CachedEntry) (answer : Result Response)
      (h : History)
      → IsLegacy h (after_send svc m key key_headers entry answer h).1
  unfolding after_send
  after_send-IsLegacy key_headers entry (err e) h =
      ground (arith, presign-IsLegacy (decided stale ∷ h))
  after_send-IsLegacy key_headers entry (ok resp) h =
      on_response-IsLegacy key_headers entry resp (upstream_unchanged resp (headers_of entry)) h

  fetch_upstream-IsLegacy :
      (key_headers : List Bytes) (entry : Option CachedEntry) (req : Result UpstreamRequest)
      (h : History)
      → IsLegacy h (fetch_upstream svc m key key_headers entry req h).1
  unfolding fetch_upstream
  fetch_upstream-IsLegacy key_headers entry (err e) h = ground arith
  fetch_upstream-IsLegacy key_headers entry (ok req) h =
      ground (arith, after_send-IsLegacy key_headers entry (svc.client_do h req) (sent req ∷ h))

  evaluate_freshness-off :
      (entry : Option CachedEntry) (key_headers : List Bytes) (h : History)
      → evaluate_freshness svc m entry key_headers h ≡ (none, h)
  unfolding evaluate_freshness
  evaluate_freshness-off none key_headers h = refl
  evaluate_freshness-off (some entry) key_headers h = ground arith

  -- With the setting off, no call of `fetchAndCache` reads the clock or touches an entry.
  pub fetch_and_cache-IsLegacy :
      (accept : Bytes) (key_headers : List Bytes) (h : History)
      → IsLegacy h (fetch_and_cache svc m key accept key_headers h).1
  unfolding fetch_and_cache head_entry
  fetch_and_cache-IsLegacy accept key_headers h =
      let found = head_entry svc m key h in
      ground (
        arith,
        evaluate_freshness-off found.0 key_headers found.1,
        fetch_upstream-IsLegacy key_headers found.0
            (build_upstream_request svc key.url accept (headers_of found.0)) found.1,
      )
