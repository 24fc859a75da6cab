-- ===== src/Warm/Same.antt =====
-- The gate reads five fields only, and all five survive in the metadata of an object.
use external_mirror_cache.Base.{◌≡◌, refl, List, Bytes, codes, bytes_beq}
use external_mirror_cache.Go.Strings.{Std}
use external_mirror_cache.Go.Header.{Header, values, canonical_key}
use external_mirror_cache.Freshness.Evaluate.{Time, Duration, evaluate, declared_lifetime}
use external_mirror_cache.S3.Metadata.{is_listed}
use external_mirror_cache.S3.MetadataTrip.{kept}

-- Two headers that agree on what the gate reads.
pub record IsSame (a b : Header) : Type 0 where
  pub cache_control : values a (codes "Cache-Control") ≡ values b (codes "Cache-Control")
  pub age : values a (codes "Age") ≡ values b (codes "Age")
  pub vary : values a (codes "Vary") ≡ values b (codes "Vary")
  pub expires : values a (codes "Expires") ≡ values b (codes "Expires")
  pub date : values a (codes "Date") ≡ values b (codes "Date")

pub evaluate-IsSame :
    (g : Std) (a b : Header) (stored_at now : Time) (lifetime_cap : Duration)
    (key_headers : List Bytes)
    → IsSame a b
    → evaluate g a stored_at now lifetime_cap key_headers
      ≡ evaluate g b stored_at now lifetime_cap key_headers
unfolding evaluate declared_lifetime
evaluate-IsSame g a b stored_at now lifetime_cap key_headers s =
    rw (s.cache_control, s.age, s.vary, s.expires, s.date) refl

pub kept-IsSame : (a b : Header) → ((name : Bytes) → values a name ≡ kept b name) → IsSame a b
unfolding is_listed canonical_key bytes_beq
kept-IsSame a b keeps = record {
  cache_control = keeps (codes "Cache-Control");
  age = keeps (codes "Age");
  vary = keeps (codes "Vary");
  expires = keeps (codes "Expires");
  date = keeps (codes "Date");
}
