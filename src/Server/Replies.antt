-- ===== src/Server/Replies.antt =====
-- The replies of `ServeHTTP`.
use external_mirror_cache.Base.{
  ℕ, ◌≡◌, ◌≢◌, ◌↔◌, ap, ◌∙◌, ◌⊎◌, inl, inr, List, refl, arith, Bytes, codes, none, some, bytes_eq,
  bytes_beq_iff,
}
use external_mirror_cache.Go.Url.{Url}
use external_mirror_cache.Errors.{
  Error, upstream, wrapped, invalid_path, negative_duration, bucket_required, foreign, as_upstream,
  Result, ok, err, ok-injective,
}
use external_mirror_cache.Server.World.{Services, History}
use external_mirror_cache.Server.Target.{
  ClientRequest, parse_target_url, accept_header, accept_variant_key,
}
use external_mirror_cache.Server.Fetch.{Middleware, fetch_and_cache}
use external_mirror_cache.Server.Serve.{
  Reply, write_header, http_error, redirect, text, status_text, invalid_request, respond,
  serve_target, serve_http,
}

-- An answer of upstream with the status, that is relayed as an error, under any number of wrappers.
pub data IsUpstream (status : ℕ) (url : Bytes) : Error → Type 0 where
  bare : IsUpstream status url (upstream status url)
  under :
      (format : Bytes) (args : List Bytes) (e : Error)
      → IsUpstream status url e
      → IsUpstream status url (wrapped format args e)

as_upstream-IsUpstream :
    (status : ℕ) (url : Bytes) (e : Error)
    → IsUpstream status url e
    → as_upstream e ≡ some (status, url)
unfolding as_upstream
as_upstream-IsUpstream status url _ bare = refl
as_upstream-IsUpstream status url _ (under format args e i) = as_upstream-IsUpstream status url e i

IsUpstream-cases :
    (e : Error) → ((status : ℕ) × (url : Bytes) × IsUpstream status url e) ⊎ (as_upstream e ≡ none)
unfolding as_upstream
IsUpstream-cases (upstream status url) = inl (status, url, bare)
IsUpstream-cases (wrapped format args e) = elim (IsUpstream-cases e) [
  | inl (status, url, i) ↦ inl (status, url, under format args e i)
  | inr none_found ↦ inr none_found
]
IsUpstream-cases invalid_path = inr refl
IsUpstream-cases negative_duration = inr refl
IsUpstream-cases bucket_required = inr refl
IsUpstream-cases (foreign is_net code message) = inr refl

-- How the result of a fetch is answered: a redirect to the URL, upstream's own status with its
-- standard text, or 502 with the text for a failure of the program.
pub record IsResult (result : Result Bytes) (reply : Reply) : Type 0 where
  pub success : (u : Bytes) → (result ≡ ok u) ↔ (reply ≡ redirect u 303)
  pub relayed :
      (e : Error) (status : ℕ) (url : Bytes)
      → result ≡ err e
      → IsUpstream status url e
      → reply ≡ http_error (status_text status) status
  pub internal :
      (e : Error)
      → result ≡ err e
      → ((status : ℕ) (url : Bytes) → IsUpstream status url e → ⊥)
      → reply ≡ http_error (text (codes "mirror-cache internal error, see X-Request-ID")) 502

respond-IsResult : (result : Result Bytes) → IsResult result (respond result)
unfolding respond
respond-IsResult (ok v) = record {
  success = λ u. (λ e. ap (λ w. redirect w 303) (ok-injective v u e), λ e. ap ok (cc));
  relayed = λ e status url h. absurd (cc);
  internal = λ e h. absurd (cc);
}
respond-IsResult (err f) = record {
  success = λ u. (λ e. absurd (cc), λ e. absurd (ground arith));
  relayed = λ e status url h i.
      let same : f ≡ e = cc in
      let found = ap as_upstream same ∙ as_upstream-IsUpstream status url e i in rw found refl;
  internal = λ e h never.
      let same : f ≡ e = cc in
      elim (IsUpstream-cases e) [
        | inl (status, url, i) ↦ absurd (never status url i)
        | inr none_found ↦ rw (ap as_upstream same ∙ none_found) refl
      ];
}

module _ (svc : Services) (m : Middleware) (r : ClientRequest) (h : History) where
  abbrev fetched : Url → Result Bytes × History
  fetched target =
      let key = accept_variant_key target r in fetch_and_cache svc m key.0 (accept_header r) key.1 h

  -- How a request is answered, by its path, its method and its target.
  pub record IsAnswered (reply : Reply) (done : History) : Type 0 where
    pub health : r.path ≡ codes "/health" → (reply ≡ write_header 200) × (done ≡ h)
    pub only_get :
        r.path ≢ codes "/health"
        → r.method ≢ codes "GET"
        → (reply ≡ http_error (text (codes "Only GET requests are supported")) 405) × (done ≡ h)
    pub invalid :
        r.path ≢ codes "/health"
        → r.method ≡ codes "GET"
        → (e : Error) → parse_target_url r.path r.raw_query ≡ err e
        → (reply ≡ http_error (invalid_request e) 400) × (done ≡ h)
    pub by_target :
        r.path ≢ codes "/health"
        → r.method ≡ codes "GET"
        → (target : Url) → parse_target_url r.path r.raw_query ≡ ok target
        → IsResult (fetched target).0 reply × (done ≡ (fetched target).1)

  abbrev answer : Reply × History
  answer = serve_http svc m r h

  -- A GET for anything but the health check is answered by its target.
  serve_http-target :
      r.path ≢ codes "/health"
      → r.method ≡ codes "GET"
      → answer ≡ serve_target svc m r (parse_target_url r.path r.raw_query) h
  unfolding serve_http
  serve_http-target ne get =
      ground (arith, bytes_beq_iff r.path (codes "/health"), bytes_beq_iff r.method (codes "GET"))

  -- The replies to all requests. The health check is answered 200 with no text, any other method
  -- than GET 405, a GET for an invalid path 400 with the error: these three without a call of a
  -- service. Every other GET is answered by the result of the fetch for the request's own target,
  -- and no call is made but those of the fetch: by a redirect with 303 to a URL exactly if the fetch
  -- returned that URL; by upstream's own status where the error of the fetch has one; and else by 502
  -- with the text for internal errors.
  pub serve_http-IsAnswered : IsAnswered answer.0 answer.1
  serve_http-IsAnswered = record {
    health = λ e. unfold serve_http in ground (arith, bytes_beq_iff r.path (codes "/health"));
    only_get = λ ne other.
        unfold serve_http in
        ground
          (arith, bytes_beq_iff r.path (codes "/health"), bytes_beq_iff r.method (codes "GET"));
    invalid = λ ne get e f. rw (serve_http-target ne get, f) (unfold serve_target in (refl, refl));
    by_target = λ ne get target p.
        rw (serve_http-target ne get, p)
          (unfold serve_target in (respond-IsResult (fetched target).0, refl));
  }
