-- ===== src/Server/Trace.antt =====
-- How often `fetchAndCache` calls upstream, writes the cache and logs a decision.
use external_mirror_cache.Base.{
  ℕ, ◌+◌, ◌≤◌, ◌≡◌, arith, Bool, true, false, List, [], ◌∷◌, Bytes, Option, none, some,
  if◌then◌else◌,
}
use external_mirror_cache.Go.Header.{Header}
use external_mirror_cache.Errors.{Result, ok, err}
use external_mirror_cache.Cache.{CacheKey, CachedEntry}
use external_mirror_cache.Server.World.{
  Services, Event, History, stored, touched, sent, clock, decided, fresh, stale, revalidated,
  refreshed, cached, Response, UpstreamRequest,
}
use external_mirror_cache.Fallback.{is_some}
use external_mirror_cache.Server.Validators.{upstream_unchanged, build_upstream_request}
use external_mirror_cache.Server.Fetch.{
  Middleware, headers_of, head_entry, presign, evaluate_freshness, touch_if_fresh, maybe_touch,
  handle_non200, after_put, on_response, after_send, fetch_upstream, fetch_and_cache,
}

abbrev pub is_sent : Event → Bool
is_sent (sent req) = true
is_sent _ = false

abbrev pub is_stored : Event → Bool
is_stored (stored key header body) = true
is_stored _ = false

abbrev pub is_touched : Event → Bool
is_touched (touched key entry header) = true
is_touched _ = false

abbrev pub is_clock : Event → Bool
is_clock clock = true
is_clock _ = false

abbrev pub is_decided : Event → Bool
is_decided (decided action) = true
is_decided _ = false

abbrev pub count : (Event → Bool) → History → ℕ
count p [] = 0
count p (e ∷ h) = (if p e then 1 else 0) + count p h

abbrev pub is_ok {ℓ} : {A : Type ℓ} → Result A → Bool
is_ok (ok a) = true
is_ok (err e) = false

-- From `h` on there are no more than these calls; where the result is a URL, one decision.
pub record IsFrugal (sends stores decisions : ℕ) (h : History) (done : Result Bytes × History)
    : Type 0 where
  pub few_sends : count is_sent done.1 ≤ count is_sent h + sends
  pub few_stores : count is_stored done.1 ≤ count is_stored h + stores
  pub few_decisions : count is_decided done.1 ≤ count is_decided h + decisions
  pub ok_decided : is_ok done.0 ≡ true → count is_decided done.1 ≡ count is_decided h + decisions

module _ (svc : Services) (m : Middleware) (key : CacheKey) where
  presign-IsFrugal : (h : History) → IsFrugal 0 0 0 h (presign svc m key h)
  unfolding presign
  presign-IsFrugal h = ground arith

  -- A touch is neither a request nor a write of a body.
  record IsQuiet (h h' : History) : Type 0 where
    same_sends : count is_sent h' ≡ count is_sent h
    same_stores : count is_stored h' ≡ count is_stored h
    same_decisions : count is_decided h' ≡ count is_decided h

  maybe_touch-IsQuiet :
      (entry : Option CachedEntry) (validating : Header) (key_headers : List Bytes) (h : History)
      → IsQuiet h (maybe_touch svc m key entry validating key_headers h).1
  unfolding maybe_touch touch_if_fresh
  maybe_touch-IsQuiet none validating key_headers h = ground arith
  maybe_touch-IsQuiet (some entry) validating key_headers h = ground arith

  handle_non200-IsFrugal :
      (status : ℕ) (conditional_fetch : Bool) (h : History)
      → IsFrugal 0 0 1 h (handle_non200 svc m key status conditional_fetch h)
  unfolding handle_non200
  handle_non200-IsFrugal status conditional_fetch h =
      ground (arith, presign-IsFrugal (decided stale ∷ h))

  after_put-IsFrugal :
      (conditional_fetch : Bool) (result : Result (Unit {0})) (h : History)
      → IsFrugal 0 0 1 h (after_put svc m key conditional_fetch result h)
  unfolding after_put
  after_put-IsFrugal conditional_fetch (err e) h = ground arith
  after_put-IsFrugal true (ok u) h = ground (arith, presign-IsFrugal (decided refreshed ∷ h))
  after_put-IsFrugal false (ok u) h = ground (arith, presign-IsFrugal (decided cached ∷ h))

  on_response-IsFrugal :
      (key_headers : List Bytes) (entry : Option CachedEntry) (resp : Response)
      (reason : Option Bytes) (h : History)
      → IsFrugal 0 1 1 h (on_response svc m key key_headers entry resp reason h)
  unfolding on_response
  on_response-IsFrugal key_headers entry resp (some reason) h =
      let h' : History = decided revalidated ∷ h in
      ground (
        arith,
        maybe_touch-IsQuiet entry resp.header key_headers h',
        presign-IsFrugal (maybe_touch svc m key entry resp.header key_headers h').1,
      )
  on_response-IsFrugal key_headers entry resp none h =
      let h' : History = stored key resp.header resp.body ∷ h in
      ground (
        arith,
        handle_non200-IsFrugal resp.status (is_some entry) h,
        after_put-IsFrugal (is_some entry) (svc.put h key resp.header resp.body) h',
      )

  after_send-IsFrugal :
      (key_headers : List Bytes) (entry : Option CachedEntry) (answer : Result Response)
      (h : History)
      → IsFrugal 0 1 1 h (after_send svc m key key_headers entry answer h)
  unfolding after_send
  after_send-IsFrugal key_headers entry (err e) h =
      ground (arith, presign-IsFrugal (decided stale ∷ h))
  after_send-IsFrugal key_headers entry (ok resp) h =
      on_response-IsFrugal key_headers entry resp (upstream_unchanged resp (headers_of entry)) h

  fetch_upstream-IsFrugal :
      (key_headers : List Bytes) (entry : Option CachedEntry) (req : Result UpstreamRequest)
      (h : History)
      → IsFrugal 1 1 1 h (fetch_upstream svc m key key_headers entry req h)
  unfolding fetch_upstream
  fetch_upstream-IsFrugal key_headers entry (err e) h = ground arith
  fetch_upstream-IsFrugal key_headers entry (ok req) h =
      ground (arith, after_send-IsFrugal key_headers entry (svc.client_do h req) (sent req ∷ h))

  evaluate_freshness-IsQuiet :
      (entry : Option CachedEntry) (key_headers : List Bytes) (h : History)
      → IsQuiet h (evaluate_freshness svc m entry key_headers h).1
  unfolding evaluate_freshness
  evaluate_freshness-IsQuiet none key_headers h = ground arith
  evaluate_freshness-IsQuiet (some entry) key_headers h = ground arith

  -- One call of `fetchAndCache` sends at most one request upstream, writes at most one object and
  -- logs at most one decision; where it returns a URL it has logged exactly one.
  pub fetch_and_cache-IsFrugal :
      (accept : Bytes) (key_headers : List Bytes) (h : History)
      → IsFrugal 1 1 1 h (fetch_and_cache svc m key accept key_headers h)
  unfolding fetch_and_cache head_entry
  fetch_and_cache-IsFrugal accept key_headers h =
      let found = head_entry svc m key h in
      let gate = evaluate_freshness svc m found.0 key_headers found.1 in
      ground (
        arith,
        evaluate_freshness-IsQuiet found.0 key_headers found.1,
        presign-IsFrugal (decided fresh ∷ gate.1),
        fetch_upstream-IsFrugal key_headers found.0
            (build_upstream_request svc key.url accept (headers_of found.0)) gate.1,
      )
