-- ===== src/Tests/Handler.antt =====
-- The handler: a miss that is fetched and written, a hit that is fresh, and a hit that upstream
-- confirms.
use external_mirror_cache.Base.{
  ◌≡◌, ◌↔◌, ◌⊎◌, refl, true, false, [], ◌∷◌, none, some, codes, bytes_beq,
}
use external_mirror_cache.Base.Assoc.{lookup}
use external_mirror_cache.Go.Header.{values, canonical_key, get}
use external_mirror_cache.Go.Url.{url_string}
use external_mirror_cache.Errors.{ok}
use external_mirror_cache.Freshness.Merge.{merge}
use external_mirror_cache.Server.World.{Services, History, headed, touched, clock}
use external_mirror_cache.Server.Validators.{
  etag_strong_match, upstream_unchanged, build_upstream_request, upstream_header,
}
use external_mirror_cache.Server.Fetch.{
  head_entry, presign, evaluate_freshness, fetch_upstream, after_send, on_response, after_put,
  fetch_and_cache, maybe_touch,
}
use external_mirror_cache.Server.Serve.{serve_http}
use external_mirror_cache.Server.Asked.{IsFreshHit, fetch_and_cache-sends_iff}
use external_mirror_cache.Server.Trace.{count, is_sent, IsFrugal, fetch_and_cache-IsFrugal}
use external_mirror_cache.Server.Served.{Served, fetch_and_cache-Served}
use external_mirror_cache.Server.Touch.{IsTouch, maybe_touch-IsTouch}
use external_mirror_cache.Server.Legacy.{IsLegacy, fetch_and_cache-IsLegacy}
use external_mirror_cache.Server.Conditional.{
  IsStrong, etag_strong_match_iff, IsConditional, upstream_header-IsConditional,
}
use external_mirror_cache.Server.Replies.{IsAnswered, serve_http-IsAnswered}
use external_mirror_cache.Tests.Fixture.{
  target, json_key, client_request, stored_headers, entry, middleware, upstream_ok, not_modified,
  services,
}
use external_mirror_cache.Tests.Headers.{accept_keys}

abbrev miss : Services
miss = services none (ok upstream_ok)

abbrev hit : Services
hit = services (some entry) (ok not_modified)

missed :
    (fetch_and_cache miss (middleware true) json_key [] accept_keys []).0
    ≡ ok (codes "https://s3/signed")
unfolding fetch_and_cache head_entry evaluate_freshness fetch_upstream build_upstream_request
    after_send upstream_unchanged on_response after_put presign etag_strong_match get values
    canonical_key lookup bytes_beq
missed = refl

fetch_and_cache-Served_example :
    Served miss
      (middleware true)
      json_key
      accept_keys
      none
      (headed json_key ∷ [])
      (headed json_key ∷ [])
      (build_upstream_request miss target [] none)
      (codes "https://s3/signed")
      (fetch_and_cache miss (middleware true) json_key [] accept_keys []).1
unfolding head_entry evaluate_freshness
fetch_and_cache-Served_example =
    fetch_and_cache-Served miss (middleware true) json_key accept_keys [] []
      (codes "https://s3/signed") missed

fetch_and_cache-IsFrugal_example :
    IsFrugal 1 1 1 [] (fetch_and_cache miss (middleware true) json_key [] accept_keys [])
fetch_and_cache-IsFrugal_example =
    fetch_and_cache-IsFrugal miss (middleware true) json_key [] accept_keys []

fetch_and_cache-sends_iff_example :
    (count is_sent (fetch_and_cache hit (middleware true) json_key [] accept_keys []).1 ≡ 1) ↔ (
      (hit.new_request_error (url_string json_key.url) ≡ none)
      × (IsFreshHit hit (middleware true) json_key accept_keys [] → ⊥))
fetch_and_cache-sends_iff_example =
    fetch_and_cache-sends_iff hit (middleware true) json_key accept_keys [] []

fetch_and_cache-IsLegacy_example :
    IsLegacy hit
      (middleware false)
      json_key
      refl
      []
      (fetch_and_cache hit (middleware false) json_key [] accept_keys []).1
fetch_and_cache-IsLegacy_example =
    fetch_and_cache-IsLegacy hit (middleware false) json_key refl [] accept_keys []

maybe_touch-IsTouch_example :
    let done : History =
      (maybe_touch hit
        (middleware true)
        json_key
        (some entry)
        not_modified.header
        accept_keys
        []).1 in
    (done ≡ [])
    ⊎ (done ≡ clock ∷ [])
    ⊎ ((done
          ≡ touched json_key entry (merge (some stored_headers) not_modified.header) ∷ clock ∷ [])
        × IsTouch hit (middleware true) json_key entry not_modified.header accept_keys [])
maybe_touch-IsTouch_example =
    maybe_touch-IsTouch hit (middleware true) json_key entry not_modified.header accept_keys []
      (unfold canonical_key lookup in (refl, refl, tt))

upstream_header-IsConditional_example :
    IsConditional
      (codes "json")
      (some stored_headers)
      (upstream_header (codes "json") (some stored_headers))
upstream_header-IsConditional_example =
    upstream_header-IsConditional (codes "json") (some stored_headers)

etag_strong_match_iff_example :
    (etag_strong_match (codes "\"v1\"") (codes "\"v1\"") ≡ true)
    ↔ ((codes "\"v1\"" ≡ codes "\"v1\"") × IsStrong (codes "\"v1\""))
etag_strong_match_iff_example = etag_strong_match_iff (codes "\"v1\"") (codes "\"v1\"")

serve_http-IsAnswered_example :
    IsAnswered miss
      (middleware true)
      client_request
      []
      (serve_http miss (middleware true) client_request []).0
      (serve_http miss (middleware true) client_request []).1
serve_http-IsAnswered_example = serve_http-IsAnswered miss (middleware true) client_request []
