-- ===== src/Tests/Fixture.antt =====
-- The inputs of the tests: a standard library for ASCII texts, one target and its cached entry.
use external_mirror_cache.Base.{
  Bool, true, false, [], ◌∷◌, Option, none, some, codes, ◌==◌, bytes_eq,
}
use external_mirror_cache.Base.Int.{ℤ, pos}
use external_mirror_cache.Go.Strings.{Std}
use external_mirror_cache.Go.Header.{Header}
use external_mirror_cache.Go.Url.{Url}
use external_mirror_cache.Errors.{Result, ok}
use external_mirror_cache.Cache.{CacheKey, CachedEntry}
use external_mirror_cache.Server.World.{Services, Response}
use external_mirror_cache.Server.Fetch.{Middleware}
use external_mirror_cache.Server.Target.{ClientRequest}

abbrev pub std : Std
std = record {
  unicode_lower = λ s. s;
  unicode_trim = λ s. s;
  unicode_fold = λ s t. s == t;
  parse_time = λ s. none;
}

abbrev pub target : Url
target = record {
  scheme = codes "https";
  host = codes "go.dev";
  path = codes "/dl/a b";
  raw_query = codes "v=1";
}

abbrev pub json_key : CacheKey
json_key = record { url = target; variant = codes "json" }

abbrev pub client_request : ClientRequest
client_request = record {
  method = codes "GET";
  path = codes "/go.dev/dl/a b";
  raw_query = codes "v=1";
  header = (codes "Accept", codes "json" ∷ []) ∷ [];
}

abbrev pub stored_headers : Header
stored_headers =
    (codes "Cache-Control", codes "public, max-age=60" ∷ [])
    ∷ (codes "Etag", codes "\"v1\"" ∷ [])
    ∷ (codes "Vary", codes "Accept" ∷ [])
    ∷ []

abbrev pub stored_at : ℤ
stored_at = pos 1000

-- Five seconds later.
abbrev pub soon : ℤ
soon = pos 5000001000

abbrev pub hour : ℤ
hour = pos 3600000000000

abbrev pub entry : CachedEntry
entry = record {
  headers = some stored_headers;
  stored_at = stored_at;
  object_etag = codes "o1";
  size = pos 3;
}

abbrev pub middleware : Bool → Middleware
middleware honor = record {
  fallback = record { on_connection_error = true; on_5xx = false; on_any_error = false };
  honor_freshness = honor;
  freshness_cap = hour;
}

abbrev pub upstream_ok : Response
upstream_ok = record { status = 200; header = stored_headers; body = codes "new" }

abbrev pub not_modified : Response
not_modified = record {
  status = 304;
  header = (codes "Cache-Control", codes "max-age=90" ∷ []) ∷ [];
  body = [];
}

abbrev pub services : Option CachedEntry → Result Response → Services
services found answer = record {
  std = std;
  head = λ h key. ok found;
  get_presigned_url = λ h key. ok (codes "https://s3/signed");
  put = λ h key header body. ok tt;
  touch = λ h key e header. ok tt;
  new_request_error = λ url. none;
  client_do = λ h req. answer;
  time_now = λ h. soon;
}
