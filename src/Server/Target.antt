-- ===== src/Server/Target.antt =====
-- server.go: `parseTargetURL`, `acceptHeader` and `acceptVariantKeyFunc`.
use external_mirror_cache.Base.{
  Bool, List, [], ◌∷◌, ◌++◌, Bytes, codes, ◌==◌, bytes_eq, if◌then◌else◌, not, ◌||◌,
}
use external_mirror_cache.Go.Strings.{trim_prefix, cut, join}
use external_mirror_cache.Go.Header.{Header, values}
use external_mirror_cache.Go.Url.{Url}
use external_mirror_cache.Errors.{invalid_path, wrapped, Result, ok, err}
use external_mirror_cache.Cache.{CacheKey}

-- The request of a client: what the handler reads of it.
pub record ClientRequest : Type 0 where
  pub method : Bytes
  pub path : Bytes
  pub raw_query : Bytes
  pub header : Header

abbrev pub target_parts : Bytes → Bytes → Bytes × Bytes × Bool → Result Url
target_parts path raw_query (host, rest, two) =
    if not two || host == []
    then err (wrapped (codes "invalid path %q") (path ∷ []) invalid_path)
    else ok (record {
      scheme = codes "https";
      host = host;
      path = codes "/" ++ rest;
      raw_query = raw_query;
    })

-- strings.SplitN(path, "/", 2) gives two parts where there is a slash, as a cut does.
unfoldable pub parse_target_url : Bytes → Bytes → Result Url
parse_target_url path raw_query =
    let trimmed = trim_prefix path (codes "/") in target_parts trimmed raw_query (cut b'/' trimmed)

unfoldable pub accept_header : ClientRequest → Bytes
accept_header r = join (codes ", ") (values r.header (codes "Accept"))

-- The key, and the headers that it encodes.
unfoldable pub accept_variant_key : Url → ClientRequest → CacheKey × List Bytes
accept_variant_key target r =
    let accept = accept_header r in
    if accept == []
    then (record { url = target; variant = [] }, [])
    else (record { url = target; variant = accept }, codes "Accept" ∷ [])
