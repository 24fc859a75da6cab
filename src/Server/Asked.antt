-- ===== src/Server/Asked.antt =====
-- When `fetchAndCache` asks upstream.
use external_mirror_cache.Base.{
  ℕ, ◌+◌, ◌≡◌, ◌↔◌, refl, subst, ap, ◌∙◌, arith, Bool, true, false, Bool-cases, Option-cases, inl,
  inr, List, ◌∷◌, Bytes, Option, none, some,
}
use external_mirror_cache.Go.Header.{Header, or_empty}
use external_mirror_cache.Go.Url.{url_string}
use external_mirror_cache.Errors.{Error, Result, ok, err, Result-cases}
use external_mirror_cache.Cache.{CacheKey, CachedEntry}
use external_mirror_cache.Freshness.Evaluate.{evaluate}
use external_mirror_cache.Server.World.{
  Services, History, headed, decided, fresh, stale, revalidated, refreshed, cached, sent, stored,
  Response,
}
use external_mirror_cache.Server.Validators.{upstream_unchanged, build_upstream_request}
use external_mirror_cache.Server.Fetch.{
  Middleware, headers_of, head_entry, presign, evaluate_freshness, touch_if_fresh, maybe_touch,
  handle_non200, after_put, on_response, after_send, fetch_upstream, fetch_and_cache, says_fresh,
}
use external_mirror_cache.Fallback.{is_some}
use external_mirror_cache.Server.Trace.{count, is_sent}

-- The lookup finds an entry, freshness is honored, and the entry is fresh at the instant of the clock.
pub record IsFreshHit (svc : Services) (m : Middleware) (key : CacheKey) (key_headers : List Bytes)
    (h : History) : Type 0 where
  pub entry : CachedEntry
  pub found : svc.head h key ≡ ok (some entry)
  pub honored : m.honor_freshness ≡ true
  pub is_fresh :
      (evaluate svc.std
        (or_empty entry.headers)
        entry.stored_at
        (svc.time_now (headed key ∷ h))
        m.freshness_cap
        key_headers).fresh
      ≡ true

module _ (svc : Services) (m : Middleware) (key : CacheKey) (key_headers : List Bytes) where
  abbrev sends : History → ℕ
  sends h = count is_sent h

  sends-presign : (h : History) → sends (presign svc m key h).1 ≡ sends h
  unfolding presign
  sends-presign h = ground arith

  sends-maybe_touch :
      (entry : Option CachedEntry) (validating : Header) (h : History)
      → sends (maybe_touch svc m key entry validating key_headers h).1 ≡ sends h
  unfolding maybe_touch touch_if_fresh
  sends-maybe_touch none validating h = refl
  sends-maybe_touch (some entry) validating h = ground arith

  sends-handle_non200 :
      (status : ℕ) (conditional_fetch : Bool) (h : History)
      → sends (handle_non200 svc m key status conditional_fetch h).1 ≡ sends h
  unfolding handle_non200
  sends-handle_non200 status conditional_fetch h = ground (arith, sends-presign (decided stale ∷ h))

  sends-after_put :
      (conditional_fetch : Bool) (result : Result (Unit {0})) (h : History)
      → sends (after_put svc m key conditional_fetch result h).1 ≡ sends h
  unfolding after_put
  sends-after_put conditional_fetch (err e) h = refl
  sends-after_put true (ok u) h = ground (arith, sends-presign (decided refreshed ∷ h))
  sends-after_put false (ok u) h = ground (arith, sends-presign (decided cached ∷ h))

  sends-on_response :
      (entry : Option CachedEntry) (resp : Response) (reason : Option Bytes) (h : History)
      → sends (on_response svc m key key_headers entry resp reason h).1 ≡ sends h
  unfolding on_response
  sends-on_response entry resp (some reason) h =
      let h' : History = decided revalidated ∷ h in
      ground (
        arith,
        sends-maybe_touch entry resp.header h',
        sends-presign (maybe_touch svc m key entry resp.header key_headers h').1,
      )
  sends-on_response entry resp none h = ground (
    arith,
    sends-handle_non200 resp.status (is_some entry) h,
    sends-after_put (is_some entry) (svc.put h key resp.header resp.body)
        (stored key resp.header resp.body ∷ h),
  )

  sends-after_send :
      (entry : Option CachedEntry) (answer : Result Response) (h : History)
      → sends (after_send svc m key key_headers entry answer h).1 ≡ sends h
  unfolding after_send
  sends-after_send entry (err e) h = ground (arith, sends-presign (decided stale ∷ h))
  sends-after_send entry (ok resp) h =
      sends-on_response entry resp (upstream_unchanged resp (headers_of entry)) h

  sends-fetch_upstream :
      (entry : Option CachedEntry) (accept : Bytes) (h : History)
      → (sends
            (fetch_upstream svc m key key_headers entry
              (build_upstream_request svc key.url accept (headers_of entry))
              h).1
          ≡ sends h + 1)
        ↔ (svc.new_request_error (url_string key.url) ≡ none)
  unfolding fetch_upstream build_upstream_request
  sends-fetch_upstream entry accept h = go (svc.new_request_error (url_string key.url)) refl
    where
      go :
          (o : Option Error)
          → svc.new_request_error (url_string key.url) ≡ o
          → (sends
                (fetch_upstream svc m key key_headers entry
                  (build_upstream_request svc key.url accept (headers_of entry))
                  h).1
              ≡ sends h + 1)
            ↔ (svc.new_request_error (url_string key.url) ≡ none)
      go none is = rw is (λ _. refl, λ _. sends-after_send entry _ (sent _ ∷ h) ∙ omega arith)
      go (some e) is = rw is (λ same. absurd (omega arith), λ same. absurd (cc))

  sends-gate :
      (entry : Option CachedEntry) (h : History)
      → sends (evaluate_freshness svc m entry key_headers h).1 ≡ sends h
  unfolding evaluate_freshness
  sends-gate none h = refl
  sends-gate (some entry) h = ground arith

  abbrev gate : History → Option CachedEntry → Bool
  gate h entry = says_fresh svc m (evaluate_freshness svc m entry key_headers (headed key ∷ h)).0

  gate-IsFreshHit :
      (h : History)
      → (gate h (head_entry svc m key h).0 ≡ true) ↔ IsFreshHit svc m key key_headers h
  unfolding head_entry evaluate_freshness
  gate-IsFreshHit h = elim (Result-cases (svc.head h key)) [
    | inr (e, is) ↦ rw is (λ g. absurd (ground arith), λ f. let found = f.found in absurd (cc))
    | inl (o, is) ↦ elim (Option-cases o) [
      | inl nothing ↦
          let missed = is ∙ ap ok nothing in
          rw missed (λ g. absurd (ground arith), λ f. let found = f.found in absurd (cc))
      | inr (entry, something) ↦
          let hit = is ∙ ap ok something in
          elim (Bool-cases m.honor_freshness) [
            | inr off ↦
                rw (hit, off) (λ g. absurd (ground arith), λ f. let on = f.honored in absurd (cc))
            | inl on ↦
                rw (hit, on)
                  (
                    λ g. record { entry = entry; found = hit; honored = refl; is_fresh = g },
                    λ f.
                        let found = f.found in
                        let same : f.entry ≡ entry = cc in
                        subst
                          (λ (e : CachedEntry).
                            (evaluate svc.std (or_empty e.headers) e.stored_at
                              (svc.time_now (headed key ∷ h)) m.freshness_cap key_headers).fresh
                            ≡ true)
                          same f.is_fresh,
                  )
          ]
    ]
  ]

  -- One call of `fetchAndCache` sends a request upstream exactly where the request can be built, and
  -- it is not so that freshness is honored, the lookup finds an entry, and this entry is fresh at the
  -- instant of the clock.
  pub fetch_and_cache-sends_iff :
      (accept : Bytes) (h : History)
      → (count is_sent (fetch_and_cache svc m key accept key_headers h).1 ≡ count is_sent h + 1) ↔ (
          (svc.new_request_error (url_string key.url) ≡ none)
          × (IsFreshHit svc m key key_headers h → ⊥))
  unfolding fetch_and_cache
  fetch_and_cache-sends_iff accept h =
      let entry = (head_entry svc m key h).0 in
      let h' = (evaluate_freshness svc m entry key_headers (headed key ∷ h)).1 in
      let hit = gate-IsFreshHit h in
      elim (Bool-cases (gate h entry)) [
        | inl yes' ↦
            unfold head_entry in
            rw yes' (
              λ same. absurd (
                  let few = sends-presign (decided fresh ∷ h') in
                  let none_sent = sends-gate entry (headed key ∷ h) in omega arith),
              λ asked. absurd (asked.1 (hit.0 yes')),
            )
        | inr no' ↦
            unfold head_entry in
            rw no' (
              let sent_iff = sends-fetch_upstream entry accept h' in
              let none_sent = sends-gate entry (headed key ∷ h) in
              let quiet : IsFreshHit svc m key key_headers h → ⊥ =
                λ f. let g = hit.1 f in absurd (cc) in
              (
                λ same. (sent_iff.0 (omega arith), quiet),
                λ asked. let one = sent_iff.1 asked.0 in omega arith,
              ))
      ]
