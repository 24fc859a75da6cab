-- ===== src/Tests/Warm.antt =====
-- Two requests for one target over an empty bucket: the second is served from the bucket.
use external_mirror_cache.Base.{◌≡◌, refl, true, [], ◌∷◌, none, some, codes, bytes_beq}
use external_mirror_cache.Base.Int.{◌+ℤ◌, ◌-ℤ◌, add64, mul64}
use external_mirror_cache.Base.Assoc.{lookup, insert}
use external_mirror_cache.Go.Strings.{to_lower, equal_fold, trim_space, split, cut}
use external_mirror_cache.Go.Header.{values, canonical_key}
use external_mirror_cache.Errors.{ok, api_error_code}
use external_mirror_cache.Freshness.Directives.{
  parse_delta_seconds, digits_loop, parse_age, split_quoted, split_quoted_from, directive_name,
  directive_arg, add_directive, add_directives, add_values, parse_once, parse_cache_control,
}
use external_mirror_cache.Freshness.Evaluate.{
  evaluate, declared_lifetime, judge, sub_time, is_zero_time, vary_satisfied, vary_name_ok,
}
use external_mirror_cache.Server.World.{decided, fresh, clock, headed}
use external_mirror_cache.Server.Fetch.{fetch_and_cache, head_entry, presign}
use external_mirror_cache.S3.Api.{Object}
use external_mirror_cache.S3.Store.{place_of, head, on_head, put}
use external_mirror_cache.Warm.Services.{Outside, over_s3, state_after}
use external_mirror_cache.Warm.Second.{IsFirst, since_first, second_fetch, fetch_and_cache_first}
use external_mirror_cache.Tests.Fixture.{
  std, soon, json_key, stored_headers, middleware, upstream_ok,
}
use external_mirror_cache.Tests.Headers.{accept_keys}
use external_mirror_cache.Tests.Keys.{json, stored_headers-AllSurvive, stored_headers-IsCanonical}
use external_mirror_cache.Tests.Bucket.{empty_bucket, object, bucket_api, bucket-IsS3}
use external_mirror_cache.Tests.Instances.{config, found_entry, found_it, wrote_ok}

abbrev outside : Outside
outside = record {
  std = std;
  new_request_error = λ url. none;
  client_do = λ h req. ok upstream_ok;
  time_now = λ h. soon;
}

upstream-IsFirst :
    IsFirst
      (over_s3 bucket_api json config empty_bucket outside)
      (middleware true)
      json_key
      (codes "json")
      upstream_ok
      []
unfolding head_entry head on_head put state_after api_error_code bytes_beq
upstream-IsFirst = record {
  missed = refl;
  well_formed = refl;
  answered = refl;
  status_ok = refl;
  written = unfold put in wrote_ok;
}

second_found :
    head bucket_api json config json_key (
      state_after bucket_api json config empty_bucket (
        since_first bucket_api object bucket-IsS3 json config empty_bucket outside
          (middleware true)
          json_key
          (codes "json")
          accept_keys
          upstream_ok
          []
          []))
    ≡ ok (some found_entry)
unfolding state_after presign
second_found =
    rw
      (fetch_and_cache_first (over_s3 bucket_api json config empty_bucket outside) (middleware true)
        json_key (codes "json") accept_keys upstream_ok [] upstream-IsFirst)
      found_it

second_fresh :
    (evaluate std stored_headers found_entry.stored_at soon
      (middleware true).freshness_cap
      accept_keys).fresh
    ≡ true
unfolding evaluate declared_lifetime judge sub_time is_zero_time vary_satisfied vary_name_ok values
    canonical_key lookup parse_cache_control split_quoted split_quoted_from add_directive
    directive_name directive_arg parse_once parse_delta_seconds digits_loop mul64 add64 ◌+ℤ◌ ◌-ℤ◌
    parse_age to_lower equal_fold trim_space split cut insert bytes_beq add_values add_directives
second_fresh = refl

second_fetch_example :
    (fetch_and_cache
        (over_s3 bucket_api json config empty_bucket outside)
        (middleware true)
        json_key
        (codes "json")
        accept_keys
        (since_first bucket_api object bucket-IsS3 json config empty_bucket outside
          (middleware true)
          json_key
          (codes "json")
          accept_keys
          upstream_ok
          []
          [])
      ≡ presign (over_s3 bucket_api json config empty_bucket outside) (middleware true) json_key (
          decided fresh
          ∷ clock
          ∷ headed json_key
          ∷ since_first bucket_api object bucket-IsS3 json config empty_bucket outside
              (middleware true)
              json_key
              (codes "json")
              accept_keys
              upstream_ok
              []
              []))
    × ((kept : Object) × (object
            (state_after bucket_api json config empty_bucket (
              since_first bucket_api object bucket-IsS3 json config empty_bucket outside
                (middleware true)
                json_key
                (codes "json")
                accept_keys
                upstream_ok
                []
                []))
            (place_of config json_key)
          ≡ some kept)
        × (kept.body ≡ upstream_ok.body))
second_fetch_example =
    second_fetch bucket_api object bucket-IsS3 json config empty_bucket outside (middleware true)
      json_key (codes "json") accept_keys upstream_ok [] [] (codes "json") accept_keys found_entry
      stored_headers-IsCanonical stored_headers-AllSurvive upstream-IsFirst tt refl second_found
      second_fresh
