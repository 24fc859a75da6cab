-- ===== src/Server/Serve.antt =====
-- server.go: `ServeHTTP`. `singleflight.Group.Do` lets one request of a key run `fetchAndCache` and
-- hands its result to all that wait: `respond` is what each of them does with it.
use external_mirror_cache.Base.{
  ℕ, not, Option, none, some, Bytes, codes, ◌==◌, bytes_eq, if◌then◌else◌,
}
use external_mirror_cache.Errors.{Error, as_upstream, Result, ok, err}
use external_mirror_cache.Server.World.{Services, M, pure, ◌>>=◌}
use external_mirror_cache.Server.Target.{
  ClientRequest, parse_target_url, accept_header, accept_variant_key,
}
use external_mirror_cache.Server.Fetch.{Middleware, fetch_and_cache}
use external_mirror_cache.Go.Url.{Url}

-- The text of an error: the standard text of a status, a fixed text, or "Invalid request: " and an
-- error.
pub data Body : Type 0 where
  status_text : ℕ → Body
  text : Bytes → Body
  invalid_request : Error → Body

-- The call that answers a request, with its status last: WriteHeader, http.Error with a text, or
-- http.Redirect to a URL. These are net/http's: the text and the Location that http.Redirect makes of
-- the URL are not modelled.
pub data Reply : Type 0 where
  write_header : ℕ → Reply
  http_error : Body → ℕ → Reply
  redirect : Bytes → ℕ → Reply

abbrev error_reply : Option (ℕ × Bytes) → Reply
error_reply none = http_error (text (codes "mirror-cache internal error, see X-Request-ID")) 502
error_reply (some (status, url)) = http_error (status_text status) status

unfoldable pub respond : Result Bytes → Reply
respond (err e) = error_reply (as_upstream e)
respond (ok url) = redirect url 303

module _ (svc : Services) (m : Middleware) where
  unfoldable pub serve_target : ClientRequest → Result Url → M Reply
  serve_target r (err e) = pure (http_error (invalid_request e) 400)
  serve_target r (ok target) = do
    let (key, key_headers) = accept_variant_key target r
    result ← fetch_and_cache svc m key (accept_header r) key_headers
    pure (respond result)

  unfoldable pub serve_http : ClientRequest → M Reply
  serve_http r =
      if r.path == codes "/health"
      then pure (write_header 200)
      else if not (r.method == codes "GET")
      then pure (http_error (text (codes "Only GET requests are supported")) 405)
      else serve_target r (parse_target_url r.path r.raw_query)
