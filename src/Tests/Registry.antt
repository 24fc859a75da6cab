-- ===== src/Tests/Registry.antt =====
-- A registry that asks for a token: the first answer is 401 with a challenge, the token is fetched,
-- and the request is sent again with it.
use external_mirror_cache.Base.{
  ◌+◌, ◌*◌, ◌≡◌, refl, arith, [], ◌∷◌, none, some, codes, bytes_beq, bytes_eq, ◌==◌, if◌then◌else◌,
}
use external_mirror_cache.Base.Int.{pos, negsuc, ◌<ℤ◌}
use external_mirror_cache.Base.Assoc.{lookup, insert, delete}
use external_mirror_cache.Errors.{Result, ok}
use external_mirror_cache.Go.Strings.{has_prefix, trim_space, equal_fold, to_lower, cut}
use external_mirror_cache.Go.Header.{get, set, values, canonical_key}
use external_mirror_cache.Oci.Challenge.{
  parse_oci_auth_challenge, first_challenge, bearer_remainder, challenge_of,
  parse_auth_challenge_params, add_params, add_param, split_auth_params, split_auth_from, unquote,
}
use external_mirror_cache.Oci.Repository.{
  extract_oci_repository, last_action, last_index, challenge_key,
}
use external_mirror_cache.Oci.Tokens.{buffered_duration}
use external_mirror_cache.Oci.Transport.{
  Request, Response, Network, State, round_trip, in_repository, known_challenge, with_challenge,
  discovery_path, on_bare, on_challenge, learn, get_or_fetch, cached_token, fetch_unless,
  fetch_token, fetch_from, request_token, on_endpoint, on_token_response, keep_token, retry,
  with_token,
}
use external_mirror_cache.Oci.Calls.{Runs, retries, count, is_forwarded, is_token}
use external_mirror_cache.Oci.RequestCalls.{round_trip-Runs}
use external_mirror_cache.Oci.Paths.{IsRepository, extract_oci_repository-IsRepository}
use external_mirror_cache.Oci.Expiry.{
  used_seconds, buffered_duration-used_seconds, buffered_duration_positive,
}
use external_mirror_cache.Tests.Fixture.{std}

abbrev pub manifest : Request
manifest = record {
  method = codes "GET";
  host = codes "ghcr.io";
  path = codes "/v2/org/app/manifests/latest";
  header = [];
}

abbrev pub denied : Response
denied = record {
  status = 401;
  header =
      (
        codes "Www-Authenticate",
        codes "Bearer realm=\"https://ghcr.io/token\",service=\"ghcr.io\",scope=\"pull\"" ∷ [],
      )
      ∷ [];
  body = [];
}

abbrev pub granted : Response
granted = record { status = 200; header = []; body = codes "ok" }

abbrev pub network : Network
network = record {
  std = std;
  round_trip_base =
      λ calls r. if get r.header (codes "Authorization") == [] then ok denied else ok granted;
  token_round_trip = λ calls url. ok granted;
  time_now = λ calls. pos 5;
  parse_realm = λ s. ok (record { scheme = codes "https"; with_query = λ ps. s });
  new_request_error = λ url. none;
  decode_token = λ s. ok (record { token = codes "t"; access_token = []; expires_in = pos 300 });
}

abbrev pub empty_state : State
empty_state = record { challenges = []; tokens = []; calls = [] }

round_trip-Runs_example :
    Runs network manifest (1 + retries network manifest 2) 2 (round_trip network manifest)
round_trip-Runs_example = round_trip-Runs network manifest

pub manifest_repository :
    extract_oci_repository manifest.host manifest.path ≡ some (codes "ghcr.io", codes "org/app")
unfolding extract_oci_repository last_action last_index has_prefix bytes_beq
manifest_repository = refl

-- The token is fetched once, and the answer to the second request is passed on.
round_trip-manifest :
    let done : Result Response × State = round_trip network manifest empty_state in
    (done.0 ≡ ok granted)
    × (count is_forwarded done.1.calls ≡ 2)
    × (count is_token done.1.calls ≡ 1)
unfolding round_trip in_repository extract_oci_repository last_action last_index has_prefix
    bytes_beq known_challenge with_challenge discovery_path on_bare parse_oci_auth_challenge
    first_challenge bearer_remainder challenge_of parse_auth_challenge_params add_params add_param
    split_auth_params split_auth_from unquote on_challenge learn get_or_fetch cached_token
    fetch_unless fetch_token fetch_from request_token on_endpoint on_token_response keep_token retry
    with_token get set values canonical_key lookup insert delete trim_space equal_fold to_lower cut
    challenge_key
round_trip-manifest = (refl, refl, refl)

extract_oci_repository-IsRepository_example :
    (codes "ghcr.io" ≡ codes "ghcr.io") × IsRepository manifest.path (codes "org/app")
extract_oci_repository-IsRepository_example =
    extract_oci_repository-IsRepository manifest.host manifest.path (codes "ghcr.io")
      (codes "org/app") manifest_repository

buffered_duration-used_seconds_example :
    buffered_duration (pos 300) ≡ pos (used_seconds 300 * 1000000000)
buffered_duration-used_seconds_example = buffered_duration-used_seconds 300 (omega arith)

buffered_duration_positive_example : pos 0 <ℤ buffered_duration (negsuc 5)
buffered_duration_positive_example = buffered_duration_positive (negsuc 5)
