-- ===== src/Tests/Keys.antt =====
-- Keys, URLs and object paths.
use external_mirror_cache.Base.{◌≡◌, ◌↔◌, refl, [], ◌∷◌, ◌++◌, codes, bytes_beq}
use external_mirror_cache.Go.Strings.{cut, trim_prefix, has_prefix, join, split}
use external_mirror_cache.Go.Header.{values, canonical_key, IsCanonical}
use external_mirror_cache.Go.Url.{
  url_string, escape, escape_byte, should_escape, escaped_path, authority,
}
use external_mirror_cache.Errors.{ok}
use external_mirror_cache.Cache.{key_string}
use external_mirror_cache.Cache.Distinct.{IsTarget, IsKey, key_string_injective}
use external_mirror_cache.S3.Key.{s3_path_for, query_part, variant_part, escape_copy_source}
use external_mirror_cache.S3.KeyUnique.{s3_path_for_injective}
use external_mirror_cache.S3.CopySource.{query_decode, query_decode-escape_copy_source}
use external_mirror_cache.Server.Target.{
  ClientRequest, parse_target_url, accept_header, accept_variant_key,
}
use external_mirror_cache.Server.Requests.{
  IsWire, parse_target_url_lem, shared_object, flight_iff_object,
}
use external_mirror_cache.Base.Assoc.{lookup}
use external_mirror_cache.S3.Metadata.{Json}
use external_mirror_cache.S3.MetadataText.{AllSurvive}
use external_mirror_cache.S3.MetadataTrip.{IsKept, header_to_metadata-IsKept}
use external_mirror_cache.Tests.Fixture.{stored_headers, target, json_key, client_request}

url_string-target : url_string target ≡ codes "https://go.dev/dl/a%20b?v=1"
unfolding url_string authority escaped_path escape escape_byte should_escape bytes_beq
url_string-target = refl

s3_path_for-json : s3_path_for (codes "cache") json_key ≡ codes "cache/go.dev/dl/a%20b?v%3D1??json"
unfolding s3_path_for query_part variant_part escaped_path escape escape_byte should_escape
    bytes_beq
s3_path_for-json = refl

target-IsTarget : IsTarget target
target-IsTarget = record {
  scheme_https = refl;
  host_ne_nil = λ e. cc;
  host_bytes = refl;
  path_slash = refl;
  path_bytes = refl;
  query_bytes = refl;
  query_no_nul = refl;
}

pub json_key-IsKey : IsKey json_key
json_key-IsKey = record { target = target-IsTarget; variant_bytes = refl }

s3_path_for_injective_example : json_key ≡ json_key
s3_path_for_injective_example =
    s3_path_for_injective (codes "cache") json_key json_key json_key-IsKey json_key-IsKey refl

key_string_injective_example : json_key ≡ json_key
key_string_injective_example =
    key_string_injective json_key json_key json_key-IsKey json_key-IsKey refl

query_decode-escape_copy_source_example :
    query_decode (escape_copy_source (codes "b/a b%+?")) ≡ codes "b/a b%+?"
query_decode-escape_copy_source_example = query_decode-escape_copy_source (codes "b/a b%+?") refl

parse_target_url_lem_example :
    parse_target_url (codes "/" ++ (codes "go.dev" ++ (codes "/" ++ codes "dl/a b"))) (codes "v=1")
    ≡ ok target
parse_target_url_lem_example =
    parse_target_url_lem (codes "go.dev") (codes "dl/a b") (codes "v=1") (λ e. cc) refl

client_request-IsWire : IsWire client_request
unfolding accept_header values canonical_key bytes_beq join
client_request-IsWire = record {
  path_bytes = refl;
  query_bytes = refl;
  query_no_nul = refl;
  accept_bytes = refl;
}

client_target : parse_target_url client_request.path client_request.raw_query ≡ ok target
unfolding parse_target_url trim_prefix has_prefix cut bytes_beq
client_target = refl

-- The same target and the same joined Accept in another spelling.
abbrev bare_request : ClientRequest
bare_request = record client_request {
  path = codes "go.dev/dl/a b";
  header = (codes "Accept", codes "json" ∷ []) ∷ (codes "Te", []) ∷ [];
}

bare_request-IsWire : IsWire bare_request
unfolding accept_header values canonical_key bytes_beq join
bare_request-IsWire = record {
  path_bytes = refl;
  query_bytes = refl;
  query_no_nul = refl;
  accept_bytes = refl;
}

bare_target : parse_target_url bare_request.path bare_request.raw_query ≡ ok target
unfolding parse_target_url trim_prefix has_prefix cut bytes_beq
bare_target = refl

same_object :
    s3_path_for (codes "cache") (accept_variant_key target client_request).0
    ≡ s3_path_for (codes "cache") (accept_variant_key target bare_request).0
unfolding accept_variant_key accept_header values canonical_key bytes_beq join
same_object = refl

shared_object_example :
    (target ≡ target) × (accept_header client_request ≡ accept_header bare_request)
shared_object_example =
    shared_object (codes "cache") client_request bare_request target target client_request-IsWire
      bare_request-IsWire client_target bare_target same_object

abbrev html_request : ClientRequest
html_request = record client_request { header = (codes "Accept", codes "html" ∷ []) ∷ [] }

html_request-IsWire : IsWire html_request
unfolding accept_header values canonical_key bytes_beq join
html_request-IsWire = record {
  path_bytes = refl;
  query_bytes = refl;
  query_no_nul = refl;
  accept_bytes = refl;
}

flight_iff_object_example :
    (key_string (accept_variant_key target client_request).0
      ≡ key_string (accept_variant_key target html_request).0)
    ↔ (s3_path_for (codes "cache") (accept_variant_key target client_request).0
        ≡ s3_path_for (codes "cache") (accept_variant_key target html_request).0)
flight_iff_object_example =
    flight_iff_object (codes "cache") client_request html_request target target
      client_request-IsWire html_request-IsWire client_target client_target

-- Values without a NUL, joined by NULs.
abbrev pub json : Json
json = record { marshal = λ vs. ok (join (0 ∷ []) vs); unmarshal = λ text. ok (split 0 text) }

pub stored_headers-AllSurvive : AllSurvive json stored_headers
unfolding join split cut
stored_headers-AllSurvive = (
  (codes "public, max-age=60", refl, refl),
  ((codes "\"v1\"", refl, refl), ((codes "Accept", refl, refl), tt)),
)

pub stored_headers-IsCanonical : IsCanonical stored_headers
unfolding canonical_key lookup bytes_beq
stored_headers-IsCanonical = (refl, refl, (refl, refl, (refl, refl, tt)))

header_to_metadata-IsKept_example : IsKept json stored_headers
header_to_metadata-IsKept_example =
    header_to_metadata-IsKept json stored_headers stored_headers-IsCanonical
      stored_headers-AllSurvive
