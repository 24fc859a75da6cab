-- ===== src/Tests/Instances.antt =====
-- Two instances on one bucket: a response is written and looked up, and the entry is touched.
use external_mirror_cache.Base.{
  ◌≡◌, refl, true, [], ◌∷◌, none, some, Bytes, codes, bytes_beq, bytes_eq, inl,
}
use external_mirror_cache.Base.Int.{pos, ◌+ℤ◌, ◌-ℤ◌, add64, mul64}
use external_mirror_cache.Base.Assoc.{lookup, insert, delete}
use external_mirror_cache.Go.Strings.{
  to_lower, equal_fold, trim_space, split, join, cut, trim_prefix, has_prefix,
}
use external_mirror_cache.Go.Url.{escape, escape_byte, should_escape, escaped_path}
use external_mirror_cache.Go.Header.{Header, values, canonical_key, get, add, del, or_empty}
use external_mirror_cache.Errors.{ok}
use external_mirror_cache.Cache.{CachedEntry}
use external_mirror_cache.Freshness.Directives.{
  parse_delta_seconds, digits_loop, parse_age, split_quoted, split_quoted_from, directive_name,
  directive_arg, add_directive, add_directives, add_values, parse_once, parse_cache_control,
}
use external_mirror_cache.Freshness.Evaluate.{
  evaluate, declared_lifetime, judge, sub_time, is_zero_time, vary_satisfied, vary_name_ok,
}
use external_mirror_cache.Freshness.Merge.{merge, merge_fields, is_frozen}
use external_mirror_cache.Server.Fetch.{maybe_touch, touch_if_fresh}
use external_mirror_cache.Server.Touch.{etag}
use external_mirror_cache.S3.Metadata.{
  header_to_metadata, marshal_fields, metadata_to_header, unmarshal_fields, add_all, is_listed,
}
use external_mirror_cache.S3.MetadataText.{AllSurvive}
use external_mirror_cache.S3.MetadataTrip.{kept}
use external_mirror_cache.S3.Key.{s3_path_for, query_part, variant_part}
use external_mirror_cache.S3.Api.{Object}
use external_mirror_cache.S3.Store.{
  HttpCache, place_of, head, on_head, put, upload_with, upload_input, touch, copy_with, copy_input,
}
use external_mirror_cache.S3.Looked.{head-put}
use external_mirror_cache.S3.Stored.{IsTypeOf}
use external_mirror_cache.S3.Missed.{IsLookup, head-IsLookup}
use external_mirror_cache.S3.Touched.{IsGuarded, touch-IsGuarded}
use external_mirror_cache.Fleet.Steps.{World, IsAsked, writes, looks, touches, Reach, start, later}
use external_mirror_cache.Fleet.Consistent.{IsTagged}
use external_mirror_cache.Fleet.Labels.{Reach-IsTagged}
use external_mirror_cache.Tests.Fixture.{
  json_key, stored_headers, middleware, not_modified, services,
}
use external_mirror_cache.Tests.Headers.{accept_keys}
use external_mirror_cache.Tests.Keys.{
  json, stored_headers-AllSurvive, stored_headers-IsCanonical, json_key-IsKey,
}
use external_mirror_cache.Tests.Bucket.{Bucket, empty_bucket, object, bucket_api, bucket-IsS3}

abbrev pub config : HttpCache
config = record { bucket = codes "b"; prefix = codes "cache" }

abbrev pub written : Bucket
written = (put bucket_api json config json_key stored_headers (codes "new") empty_bucket).1

pub wrote_ok :
    (put bucket_api json config json_key stored_headers (codes "new") empty_bucket).0 ≡ ok tt
unfolding put upload_with header_to_metadata marshal_fields is_listed canonical_key bytes_beq join
    insert
wrote_ok = refl

-- What a lookup then finds.
abbrev pub found_entry : CachedEntry
found_entry = record {
  headers = some stored_headers;
  stored_at = pos 1000;
  object_etag = codes "new";
  size = pos 3;
}

pub found_it : head bucket_api json config json_key written ≡ ok (some found_entry)
unfolding head on_head put upload_with upload_input header_to_metadata marshal_fields is_listed
    canonical_key bytes_beq join insert metadata_to_header unmarshal_fields add_all add values
    lookup trim_prefix has_prefix split cut s3_path_for escape escape_byte should_escape
    escaped_path query_part variant_part
found_it = refl

head-IsLookup_example :
    IsLookup bucket_api json config json_key empty_bucket
      (head bucket_api json config json_key empty_bucket)
head-IsLookup_example = head-IsLookup bucket_api json config json_key empty_bucket

head-put_example :
    (o : Object) × (object written (place_of config json_key) ≡ some o)
    × (o.body ≡ codes "new")
    × IsTypeOf stored_headers o.content_type
    × ((e : CachedEntry)
        → head bucket_api json config json_key written ≡ ok (some e)
        → ((name : Bytes) → values (or_empty e.headers) name ≡ kept stored_headers name)
          × (e.stored_at ≡ o.last_modified))
head-put_example =
    head-put bucket_api object bucket-IsS3 json config json_key stored_headers (codes "new")
      empty_bucket stored_headers-IsCanonical stored_headers-AllSurvive wrote_ok

touch-IsGuarded_example :
    IsGuarded bucket_api object bucket-IsS3 json config refl refl json_key json_key-IsKey
      found_entry stored_headers stored_headers-IsCanonical stored_headers-AllSurvive written
touch-IsGuarded_example =
    touch-IsGuarded bucket_api object bucket-IsS3 json config refl refl json_key json_key-IsKey
      found_entry stored_headers stored_headers-IsCanonical stored_headers-AllSurvive written

not_modified-IsAsked : IsAsked json_key found_entry not_modified.header
unfolding maybe_touch touch_if_fresh get merge merge_fields is_frozen del delete evaluate
    declared_lifetime judge sub_time is_zero_time vary_satisfied vary_name_ok values canonical_key
    lookup parse_cache_control split_quoted split_quoted_from add_directive directive_name
    directive_arg parse_once parse_delta_seconds digits_loop mul64 add64 ◌+ℤ◌ ◌-ℤ◌ parse_age
    to_lower equal_fold trim_space split cut insert bytes_beq add_values add_directives
not_modified-IsAsked = record {
  services = services (some found_entry) (ok not_modified);
  middleware = middleware true;
  key_headers = accept_keys;
  before = [];
  asked = refl;
}

merged-AllSurvive : AllSurvive json (merge (some stored_headers) not_modified.header)
unfolding merge merge_fields is_frozen del delete canonical_key bytes_beq insert join split cut
merged-AllSurvive = (
  (codes "max-age=90", refl, refl),
  ((codes "\"v1\"", refl, refl), ((codes "Accept", refl, refl), tt)),
)

abbrev last_world : World Bucket
last_world = record {
  state =
      (touch bucket_api json config json_key found_entry
        (merge (some stored_headers) not_modified.header) written).1;
  wrote =
      record { place = place_of config json_key; body = codes "new"; tag = etag stored_headers }
      ∷ [];
  seen = (json_key, found_entry) ∷ [];
}

last_world-Reach : Reach bucket_api json config empty_bucket last_world
last_world-Reach =
    later
      (later
        (later start (
          writes json_key stored_headers (codes "new") json_key-IsKey stored_headers-IsCanonical
            stored_headers-AllSurvive))
        (looks json_key found_entry found_it))
      (touches json_key found_entry not_modified.header json_key-IsKey (inl refl)
        (unfold canonical_key lookup in (refl, refl, tt)) merged-AllSurvive not_modified-IsAsked)

-- The object after the touch, and the header that is read from it.
abbrev last_object : Object
last_object = record {
  body = codes "new";
  metadata =
      (codes "cache-control", codes "max-age=90")
      ∷ (codes "etag", codes "\"v1\"")
      ∷ (codes "vary", codes "Accept")
      ∷ [];
  content_type = none;
  etag = codes "new";
  last_modified = pos 1000;
  size = pos 3;
}

abbrev last_header : Header
last_header =
    (codes "Cache-Control", codes "max-age=90" ∷ [])
    ∷ (codes "Etag", codes "\"v1\"" ∷ [])
    ∷ (codes "Vary", codes "Accept" ∷ [])
    ∷ []

last_object_held : object last_world.state (place_of config json_key) ≡ some last_object
unfolding touch copy_with copy_input merge merge_fields is_frozen del delete put upload_with
    upload_input header_to_metadata marshal_fields is_listed canonical_key bytes_beq join insert
    s3_path_for get values lookup escape escape_byte should_escape escaped_path query_part
    variant_part
last_object_held = refl

last_header_read : metadata_to_header json last_object.metadata ≡ ok last_header
unfolding metadata_to_header unmarshal_fields add_all add values lookup insert trim_prefix
    has_prefix split cut canonical_key bytes_beq
last_header_read = refl

Reach-IsTagged_example :
    IsTagged last_world.wrote (place_of config json_key) (codes "new") (etag last_header)
Reach-IsTagged_example =
    Reach-IsTagged bucket_api object bucket-IsS3 json config refl refl (λ p. refl) last_world-Reach
      (place_of config json_key) last_object last_header last_object_held last_header_read
