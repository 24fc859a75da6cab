-- ===== src/Oci/Transport/Fetch.antt =====
-- oci_auth.go: `fetchToken` and `tokenFetcher.getOrFetch`.
use external_mirror_cache.Base.{
  false, not, List, [], ◌∷◌, ◌++◌, Option, none, some, Bytes, codes, ◌==◌, nat_eq, bytes_eq,
  if◌then◌else◌,
}
use external_mirror_cache.Base.Int.{◌+ℤ◌}
use external_mirror_cache.Base.Assoc.{lookup}
use external_mirror_cache.Errors.{Error, wrapped, foreign, Result, ok, err}
use external_mirror_cache.Oci.Challenge.{Challenge, challenge_eq}
use external_mirror_cache.Oci.Tokens.{Time, TokenCache, TokenEntry, after, buffered_duration}
use external_mirror_cache.Oci.Tokens
use external_mirror_cache.Oci.Transport.Wire.{
  Response, ParsedRealm, TokenResponse, token_requested, clock, Network, M, pure, ◌>>=◌, call,
}

abbrev plain_error : Bytes → Error
plain_error message = foreign false none message

abbrev pub param : Bytes → Bytes → List (Bytes × Bytes)
param name v = if v == [] then [] else (name, v) ∷ []

abbrev pub token_text : TokenResponse → Bytes
token_text tr = if tr.token == [] then tr.access_token else tr.token

module _ (net : Network) where
  unfoldable pub on_token_response : Result TokenResponse → M (Result (Bytes × Time))
  on_token_response (err e) = pure (err (wrapped (codes "failed to decode token response") [] e))
  on_token_response (ok tr) =
      let token = token_text tr in
      if token == []
      then pure (err (plain_error (codes "token response missing token and access_token fields")))
      else do
        now ← call clock net.time_now
        pure (ok (token, now +ℤ buffered_duration tr.expires_in))

  unfoldable pub on_endpoint : Result Response → M (Result (Bytes × Time))
  on_endpoint (err e) = pure (err (wrapped (codes "failed to fetch token") [] e))
  on_endpoint (ok resp) =
      if not (resp.status == 200)
      then pure (
          err (
            wrapped (codes "token endpoint returned %d") []
              (plain_error (codes "unexpected token endpoint status"))))
      else on_token_response (net.decode_token resp.body)

  unfoldable pub request_token : Bytes → Option Error → M (Result (Bytes × Time))
  request_token url (some e) = pure (err (wrapped (codes "failed to create token request") [] e))
  request_token url none = do
    answer ← call (token_requested url) (λ calls. net.token_round_trip calls url)
    on_endpoint answer

  unfoldable pub fetch_from : Challenge → Result ParsedRealm → M (Result (Bytes × Time))
  fetch_from challenge (err e) = pure (err (wrapped (codes "invalid realm URL") [] e))
  fetch_from challenge (ok realm) =
      let query =
        param (codes "service") challenge.service ++ param (codes "scope") challenge.scope in
      let url = realm.with_query query in
      if not (realm.scheme == codes "https")
      then pure (
          err (
            wrapped (codes "%w: %q") (realm.scheme ∷ [])
              (plain_error (codes "realm URL scheme is not https"))))
      else request_token url (net.new_request_error url)

  unfoldable pub fetch_token : Challenge → M (Result (Bytes × Time))
  fetch_token challenge = fetch_from challenge (net.parse_realm challenge.realm)

  unfoldable pub keep_token : Challenge → Result (Bytes × Time) → M (Result Bytes)
  keep_token challenge (err e) = pure (err (wrapped (codes "oci auth token fetch") [] e))
  keep_token challenge (ok (token, expiry)) =
      λ s. (ok token, record s { tokens = Tokens.set challenge token expiry s.tokens })

  unfoldable pub fetch_unless : Challenge → Option Bytes → M (Result Bytes)
  fetch_unless challenge (some token) = pure (ok token)
  fetch_unless challenge none = do fetched ← fetch_token challenge; keep_token challenge fetched

  -- The cache's `get` reads the clock only for an entry that is there.
  unfoldable pub cached_token : Challenge → Option TokenEntry → M (Option Bytes)
  cached_token challenge none = pure none
  cached_token challenge (some entry) = do
    now ← call clock net.time_now
    λ s. (Tokens.get now challenge s.tokens, s)

  unfoldable pub get_or_fetch : Challenge → M (Result Bytes)
  get_or_fetch challenge = do
    entry ← λ s. (lookup challenge s.tokens, s)
    cached ← cached_token challenge entry
    fetch_unless challenge cached
