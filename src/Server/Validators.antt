-- ===== src/Server/Validators.antt =====
-- server.go: `etagStrongMatch`, `upstreamUnchanged`, `buildUpstreamRequest`; http_caching.go.
use external_mirror_cache.Base.{
  Bool, false, not, ◌&&◌, [], ◌∷◌, Option, none, some, Bytes, codes, leb, length, ◌==◌, nat_eq,
  bytes_eq, if◌then◌else◌,
}
use external_mirror_cache.Go.Strings.{has_prefix, has_suffix}
use external_mirror_cache.Go.Header.{Header, get, set, or_empty}
use external_mirror_cache.Go.Url.{Url, url_string}
use external_mirror_cache.Errors.{Error, wrapped, Result, ok, err}
use external_mirror_cache.Fallback.{is_some}
use external_mirror_cache.Server.World.{Response, UpstreamRequest, Services}

unfoldable pub etag_strong_match : Bytes → Bytes → Bool
etag_strong_match cached resp =
    if not (cached == resp)
    then false
    else leb 2 (length cached) && has_prefix cached (codes "\"") && has_suffix cached (codes "\"")

-- The reason to log, where the cached content is still current.
unfoldable pub upstream_unchanged : Response → Option Header → Option Bytes
upstream_unchanged resp cached_headers =
    if resp.status == 304 && is_some cached_headers
    then some (codes "not modified")
    else if resp.status == 200
        && etag_strong_match (get (or_empty cached_headers) (codes "ETag"))
            (get resp.header (codes "ETag"))
    then some (codes "etag match on 200")
    else none

-- The headers of the request, after one validator.
unfoldable pub inject_validator : Bytes → Bytes → Header → Header → Header
inject_validator field condition cached_headers request =
    let validator = get cached_headers field in
    if not (validator == []) && get request field == []
    then set request condition validator
    else request

unfoldable pub inject_cache_headers : Header → Header → Header
inject_cache_headers request cached_headers =
    inject_validator (codes "Last-Modified") (codes "If-Modified-Since") cached_headers
      (inject_validator (codes "ETag") (codes "If-None-Match") cached_headers request)

abbrev pub inject_optional : Header → Option Header → Header
inject_optional request none = request
inject_optional request (some cached_headers) = inject_cache_headers request cached_headers

unfoldable pub upstream_header : Bytes → Option Header → Header
upstream_header accept cached_headers =
    inject_optional (if accept == [] then [] else set [] (codes "Accept") accept) cached_headers

abbrev pub or_request : Option Error → Url → UpstreamRequest → Result UpstreamRequest
or_request none target req = ok req
or_request (some e) target req =
    err (wrapped (codes "create request for %s") (url_string target ∷ []) e)

unfoldable pub build_upstream_request :
    Services → Url → Bytes → Option Header → Result UpstreamRequest
build_upstream_request svc target accept cached_headers =
    or_request (svc.new_request_error (url_string target)) target
      (record { url = url_string target; header = upstream_header accept cached_headers })
