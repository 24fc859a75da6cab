-- ===== src/S3/Store.antt =====
-- s3_cache.go: `Head`, `Touch`, `GetPresignedURL` and `Put` of `s3HTTPCache`. An operation that
-- changes the bucket returns its result and the state of the service behind it.
use external_mirror_cache.Base.{
  Bool, false, ◌||◌, [], ◌∷◌, ◌++◌, Option, none, some, Bytes, codes, ◌==◌, bytes_eq, if◌then◌else◌,
}
use external_mirror_cache.Base.Int.{ℤ, pos, ltb_ℤ}
use external_mirror_cache.Go.Header.{Header, get}
use external_mirror_cache.Errors.{wrapped, Result, ok, err, api_error_code}
use external_mirror_cache.Cache.{CacheKey, CachedEntry}
use external_mirror_cache.S3.Key.{s3_path_for, escape_copy_source}
use external_mirror_cache.S3.Metadata.{Json, Metadata, header_to_metadata, metadata_to_header}
use external_mirror_cache.S3.Api.{Place, HeadOutput, CopyInput, UploadInput, Api}

-- aws.ToTime, aws.ToString and aws.ToInt64 read a nil pointer as zero.
abbrev pub or_zero : Option ℤ → ℤ
or_zero none = pos 0
or_zero (some n) = n

abbrev pub or_blank : Option Bytes → Bytes
or_blank none = []
or_blank (some t) = t

-- The error codes that mean "not in cache".
abbrev pub is_absent_code : Option Bytes → Bool
is_absent_code none = false
is_absent_code (some code) = code == codes "NotFound" || code == codes "Forbidden"

-- copyObjectSizeLimit
abbrev pub copy_object_size_limit : ℤ
copy_object_size_limit = pos 5368709120

abbrev pub content_type_of : Header → Option Bytes
content_type_of headers =
    let ct = get headers (codes "Content-Type") in if ct == [] then none else some ct

abbrev pub wrap_place {ℓ} : {A : Type ℓ} → Bytes → Place → Result A → Result A
wrap_place message p (ok a) = ok a
wrap_place message p (err e) = err (wrapped message (p.bucket ∷ p.path ∷ []) e)

abbrev pub entry_of : HeadOutput → Header → CachedEntry
entry_of out headers = record {
  headers = some headers;
  stored_at = or_zero out.last_modified;
  object_etag = or_blank out.etag;
  size = or_zero out.content_length;
}

abbrev pub with_headers : HeadOutput → Result Header → Result (Option CachedEntry)
with_headers out (err e) = err e
with_headers out (ok headers) = ok (some (entry_of out headers))

-- s3HTTPCache, but for its clients.
pub record HttpCache : Type 0 where
  pub bucket : Bytes
  pub prefix : Bytes

abbrev pub place_of : HttpCache → CacheKey → Place
place_of c key = record { bucket = c.bucket; path = s3_path_for c.prefix key }

module _ {State : Type 0} (api : Api State) (j : Json) (c : HttpCache) where
  unfoldable pub on_head : Place → Result HeadOutput → Result (Option CachedEntry)
  on_head p (err e) =
      if is_absent_code (api_error_code e)
      then ok none
      else err (wrapped (codes "HeadObject(%s, %s)") (p.bucket ∷ p.path ∷ []) e)
  on_head p (ok out) = with_headers out (metadata_to_header j out.metadata)

  unfoldable pub head : CacheKey → State → Result (Option CachedEntry)
  head key s = on_head (place_of c key) (api.head_object s (place_of c key))

  unfoldable pub copy_input : CacheKey → CachedEntry → Header → Metadata → CopyInput
  copy_input key entry headers metadata =
      let p = place_of c key in
      record {
        place = p;
        copy_source = escape_copy_source (p.bucket ++ (codes "/" ++ p.path));
        if_match = entry.object_etag;
        metadata = metadata;
        content_type = content_type_of headers;
      }

  unfoldable pub copy_with :
      CacheKey → CachedEntry → Header → Result Metadata → State → Result (Unit {0}) × State
  copy_with key entry headers (err e) s = (err (wrapped (codes "headerToMetadata(%v)") [] e), s)
  copy_with key entry headers (ok metadata) s =
      let done = api.copy_object s (copy_input key entry headers metadata) in
      (wrap_place (codes "CopyObject(%s, %s)") (place_of c key) done.0, done.1)

  unfoldable pub touch : CacheKey → CachedEntry → Header → State → Result (Unit {0}) × State
  touch key entry headers s =
      if ltb_ℤ copy_object_size_limit entry.size
      then (ok tt, s)
      else copy_with key entry headers (header_to_metadata j headers) s

  -- It does not ask whether the object exists.
  unfoldable pub get_presigned_url : CacheKey → State → Result Bytes
  get_presigned_url key s =
      wrap_place (codes "PresignGetObject(%s, %s)") (place_of c key)
        (api.presign_get_object s (place_of c key))

  unfoldable pub upload_input : CacheKey → Header → Bytes → Metadata → UploadInput
  upload_input key headers body metadata = record {
    place = place_of c key;
    body = body;
    metadata = metadata;
    content_type = content_type_of headers;
  }

  unfoldable pub upload_with :
      CacheKey → Header → Bytes → Result Metadata → State → Result (Unit {0}) × State
  upload_with key headers body (err e) s = (err (wrapped (codes "headerToMetadata(%v)") [] e), s)
  upload_with key headers body (ok metadata) s =
      let done = api.upload_object s (upload_input key headers body metadata) in
      (wrap_place (codes "UploadObject(%s, %s)") (place_of c key) done.0, done.1)

  unfoldable pub put : CacheKey → Header → Bytes → State → Result (Unit {0}) × State
  put key headers body s = upload_with key headers body (header_to_metadata j headers) s
