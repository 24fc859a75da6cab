-- ===== src/Server/Served.antt =====
-- What entitles `fetchAndCache` to answer with a URL.
use external_mirror_cache.Base.{
  ◌≡◌, ◌≢◌, refl, arith, true, List, ◌∷◌, Bytes, Option, none, some, Bool-cases, inl, inr, ◌==◌,
  nat_eq, ◌&&◌,
}
use external_mirror_cache.Go.Header.{or_empty}
use external_mirror_cache.Errors.{Error, Result, ok, err}
use external_mirror_cache.Fallback.{should_fallback, is_some}
use external_mirror_cache.Cache.{CacheKey, CachedEntry}
use external_mirror_cache.Freshness.Evaluate.{Decision, evaluate}
use external_mirror_cache.Server.World.{
  Services, History, Response, UpstreamRequest, sent, presigned,
}
use external_mirror_cache.Server.Validators.{upstream_unchanged, build_upstream_request}
use external_mirror_cache.Server.Fetch.{
  Middleware, headers_of, head_entry, presign, evaluate_freshness, handle_non200, after_put,
  on_response, after_send, fetch_upstream, fetch_and_cache, says_fresh,
}

module _ (svc : Services) (m : Middleware) (key : CacheKey) (key_headers : List Bytes) where
  -- The grounds for serving the object of the key, given what the lookup found, the history when
  -- the gate ran, and the history and the request with which upstream was asked.
  pub data Warrant (entry : Option CachedEntry) (looked asked : History)
      (request : Result UpstreamRequest) : Type 0 where
    -- the gate found the entry fresh at the instant that the clock gave
    fresh_entry :
        (e : CachedEntry)
        → entry ≡ some e
        → m.honor_freshness ≡ true
        → (evaluate svc.std
            (or_empty e.headers)
            e.stored_at
            (svc.time_now looked)
            m.freshness_cap
            key_headers).fresh
          ≡ true
        → Warrant entry looked asked request
    -- upstream confirmed the entry
    confirmed :
        (req : UpstreamRequest) (resp : Response) (reason : Bytes)
        → request ≡ ok req
        → svc.client_do asked req ≡ ok resp
        → upstream_unchanged resp (headers_of entry) ≡ some reason
        → Warrant entry looked asked request
    -- upstream failed, and the policy allows stale content
    failed :
        (req : UpstreamRequest) (e : Error)
        → request ≡ ok req
        → svc.client_do asked req ≡ err e
        → is_some entry ≡ true
        → should_fallback m.fallback (some e) 0 ≡ true
        → Warrant entry looked asked request
    -- upstream answered something else than 200, and the policy allows stale content
    refused :
        (req : UpstreamRequest) (resp : Response)
        → request ≡ ok req
        → svc.client_do asked req ≡ ok resp
        → is_some entry ≡ true
        → resp.status ≢ 200
        → should_fallback m.fallback none resp.status ≡ true
        → Warrant entry looked asked request
    -- upstream answered 200, and its response was written to the cache
    written :
        (req : UpstreamRequest) (resp : Response)
        → request ≡ ok req
        → svc.client_do asked req ≡ ok resp
        → resp.status ≡ 200
        → svc.put (sent req ∷ asked) key resp.header resp.body ≡ ok tt
        → Warrant entry looked asked request

  -- A URL that the last call signed for this key, and the grounds for it.
  pub record Served (entry : Option CachedEntry) (looked asked : History)
      (request : Result UpstreamRequest) (u : Bytes) (done : History) : Type 0 where
    pub warrant : Warrant entry looked asked request
    pub before : History
    pub last : done ≡ presigned key ∷ before
    pub signed : svc.get_presigned_url before key ≡ ok u

  module _ (entry : Option CachedEntry) (looked asked : History) (request : Result UpstreamRequest)
      (u : Bytes) where
    abbrev IsServed : Result Bytes × History → Type 0
    IsServed done = done.0 ≡ ok u → Served entry looked asked request u done.1

    presign-Served :
        (h : History) → Warrant entry looked asked request → IsServed (presign svc m key h)
    unfolding presign
    presign-Served h w e = record { warrant = w; before = h; last = refl; signed = ground arith }

    module _ (req : UpstreamRequest) (built : request ≡ ok req) where
      module _ (resp : Response) (answer : svc.client_do asked req ≡ ok resp) where
        handle_non200-Served :
            resp.status ≢ 200
            → (h : History) → IsServed (handle_non200 svc m key resp.status (is_some entry) h)
        unfolding handle_non200
        handle_non200-Served ne h =
            elim (Bool-cases (is_some entry && should_fallback m.fallback none resp.status)) [
              | inl stale_ok ↦ rw stale_ok (
                  presign-Served _ (refused req resp built answer (ground arith) ne (ground arith)))
              | inr denied ↦ rw denied (λ e. absurd (cc))
            ]

        after_put-Served :
            resp.status ≡ 200
            → (result : Result (Unit {0})) (h : History)
            → svc.put (sent req ∷ asked) key resp.header resp.body ≡ result
            → IsServed (after_put svc m key (is_some entry) result h)
        unfolding after_put
        after_put-Served eq (err e) h put e' = absurd (cc)
        after_put-Served eq (ok _) h put e' =
            presign-Served _ (written req resp built answer eq put) e'

        on_response-Served :
            (reason : Option Bytes)
            → upstream_unchanged resp (headers_of entry) ≡ reason
            → IsServed (on_response svc m key key_headers entry resp reason (sent req ∷ asked))
        unfolding on_response
        on_response-Served (some reason) same =
            presign-Served _ (confirmed req resp reason built answer same)
        on_response-Served none same = elim (Bool-cases (resp.status == 200)) [
          | inl is_200 ↦ rw is_200 (
              after_put-Served (ground arith) (svc.put (sent req ∷ asked) key resp.header resp.body)
                _ refl)
          | inr other ↦ rw other (handle_non200-Served (ground arith) (sent req ∷ asked))
        ]

      after_send-Served :
          (answer : Result Response)
          → svc.client_do asked req ≡ answer
          → IsServed (after_send svc m key key_headers entry answer (sent req ∷ asked))
      unfolding after_send
      after_send-Served (ok resp) answer =
          on_response-Served resp answer (upstream_unchanged resp (headers_of entry)) refl
      after_send-Served (err f) answer =
          elim (Bool-cases (is_some entry && should_fallback m.fallback (some f) 0)) [
            | inl stale_ok ↦
                rw stale_ok
                  (presign-Served _ (failed req f built answer (ground arith) (ground arith)))
            | inr denied ↦ rw denied (λ e. absurd (cc))
          ]

    fetch_upstream-Served :
        (built : Result UpstreamRequest)
        → request ≡ built
        → IsServed (fetch_upstream svc m key key_headers entry built asked)
    unfolding fetch_upstream
    fetch_upstream-Served (err f) built = λ e. absurd (cc)
    fetch_upstream-Served (ok req) built =
        after_send-Served req built (svc.client_do asked req) refl

  gate-Warrant :
      (entry : Option CachedEntry) (looked asked : History) (request : Result UpstreamRequest)
      → says_fresh svc m (evaluate_freshness svc m entry key_headers looked).0 ≡ true
      → Warrant entry looked asked request
  unfolding evaluate_freshness
  gate-Warrant none looked asked request e = absurd (ground arith)
  gate-Warrant (some entry) looked asked request e = elim (Bool-cases m.honor_freshness) [
    | inl on ↦ fresh_entry entry refl on (rw on at e)
    | inr off ↦ absurd (ground arith)
  ]

  -- Whatever the cache, upstream and the clock answer: a URL is returned only if the last call
  -- signed it for the requested key, and the entry that the lookup found was fresh, or upstream's
  -- answer to the built request confirmed it, or upstream failed or answered otherwise than 200
  -- and the policy allows a stale entry, or upstream answered 200 and the write of that response
  -- succeeded.
  pub fetch_and_cache-Served :
      (accept : Bytes) (h : History) (u : Bytes)
      → (fetch_and_cache svc m key accept key_headers h).0 ≡ ok u
      → let found : Option CachedEntry × History = head_entry svc m key h in
        let gate : Option Decision × History =
          evaluate_freshness svc m found.0 key_headers found.1 in
        Served found.0 found.1 gate.1
          (build_upstream_request svc key.url accept (headers_of found.0))
          u
          (fetch_and_cache svc m key accept key_headers h).1
  unfolding fetch_and_cache
  fetch_and_cache-Served accept h u =
      let found = head_entry svc m key h in
      let gate = evaluate_freshness svc m found.0 key_headers found.1 in
      let request = build_upstream_request svc key.url accept (headers_of found.0) in
      elim (Bool-cases (says_fresh svc m gate.0)) [
        | inl yes_fresh ↦ rw yes_fresh (
            presign-Served found.0 found.1 gate.1 request u _
              (gate-Warrant found.0 found.1 gate.1 request yes_fresh))
        | inr not_fresh ↦
            rw not_fresh (fetch_upstream-Served found.0 found.1 gate.1 request u request refl)
      ]
