-- ===== src/Cache.antt =====
-- cache.go: the key of a cached response, and what a lookup returns.
pub mod Distinct
use external_mirror_cache.Base.{[], ◌∷◌, ◌++◌, Bytes, ◌==◌, bytes_eq, if◌then◌else◌, Option}
use external_mirror_cache.Base.Int.{ℤ}
use external_mirror_cache.Go.Header.{Header}
use external_mirror_cache.Go.Url.{Url, url_string}

pub record CacheKey : Type 0 where
  pub url : Url
  pub variant : Bytes

-- `CacheKey.String`, the key of the requests in flight.
unfoldable pub key_string : CacheKey → Bytes
key_string k = let s = url_string k.url in if k.variant == [] then s else s ++ 0 ∷ k.variant

-- A nil header map is `none`; `size` is an int64.
pub record CachedEntry : Type 0 where
  pub headers : Option Header
  pub stored_at : ℤ
  pub object_etag : Bytes
  pub size : ℤ
