-- ===== src/Oci/TokenCalls.antt =====
-- The calls that fetch a token: `tokenFetcher.getOrFetch` and `fetchToken`.
use external_mirror_cache.Base.{
  ◌≡◌, refl, arith, [], ◌++◌, Option, none, some, Bytes, codes, Bool-cases, inl, inr, ◌==◌, nat_eq,
  bytes_eq, bytes_beq_iff,
}
use external_mirror_cache.Errors.{Error, Result, ok, err}
use external_mirror_cache.Oci.Challenge.{Challenge}
use external_mirror_cache.Oci.Tokens.{Time, TokenEntry}
use external_mirror_cache.Oci.Transport.{
  Request, Response, ParsedRealm, TokenResponse, Network, param, on_token_response, on_endpoint,
  request_token, fetch_from, fetch_token, keep_token, fetch_unless, cached_token, get_or_fetch,
  token_text,
}
use external_mirror_cache.Oci.Calls.{IsEndpoint, same, more, Runs, Runs-pure, Runs-bind, Runs-quiet}

module _ (net : Network) (req : Request) where
  pub on_token_response-Runs :
      (tr : Result TokenResponse) → Runs net req 0 0 (on_token_response net tr)
  unfolding on_token_response
  on_token_response-Runs (err e) = Runs-pure net req _ 0 0
  on_token_response-Runs (ok tr) = elim (Bool-cases (token_text tr == [])) [
    | inl missing ↦ rw missing (Runs-pure net req _ 0 0)
    | inr found ↦ rw found (record {
      at = λ s. record {
        extends = more same tt;
        few_forwards = omega arith;
        few_tokens = omega arith;
      };
    })
  ]

  pub on_endpoint-Runs : (answer : Result Response) → Runs net req 0 0 (on_endpoint net answer)
  unfolding on_endpoint
  on_endpoint-Runs (err e) = Runs-pure net req _ 0 0
  on_endpoint-Runs (ok resp) = elim (Bool-cases (resp.status == 200)) [
    | inl good ↦ rw good (on_token_response-Runs (net.decode_token resp.body))
    | inr bad ↦ rw bad (Runs-pure net req _ 0 0)
  ]

  pub request_token-Runs :
      (url : Bytes) (e : Option Error)
      → IsEndpoint net url
      → Runs net req 0 1 (request_token net url e)
  unfolding request_token
  request_token-Runs url (some e) p = Runs-pure net req _ 0 1
  request_token-Runs url none p =
      Runs-bind net req 0 0 1 0 _ _
        (record {
          at = λ s. record {
            extends = more same p;
            few_forwards = omega arith;
            few_tokens = omega arith;
          };
        })
        on_endpoint-Runs

  pub fetch_from-Runs :
      (challenge : Challenge) (realm : Result ParsedRealm)
      → net.parse_realm challenge.realm ≡ realm
      → Runs net req 0 1 (fetch_from net challenge realm)
  unfolding fetch_from
  fetch_from-Runs challenge (err e) p = Runs-pure net req _ 0 1
  fetch_from-Runs challenge (ok realm) p =
      let query =
        param (codes "service") challenge.service ++ param (codes "scope") challenge.scope in
      let url = realm.with_query query in
      elim (Bool-cases (realm.scheme == codes "https")) [
        | inl https ↦ rw https (
            request_token-Runs url (net.new_request_error url) (record {
              challenge = challenge;
              realm = realm;
              parsed = p;
              https = (bytes_beq_iff realm.scheme (codes "https")).0 https;
              is_url = refl;
            }))
        | inr other ↦ rw other (Runs-pure net req _ 0 1)
      ]

  pub keep_token-Runs :
      (challenge : Challenge) (r : Result (Bytes × Time))
      → Runs net req 0 0 (keep_token net challenge r)
  unfolding keep_token
  keep_token-Runs challenge (err e) = Runs-pure net req _ 0 0
  keep_token-Runs challenge (ok (token, expiry)) = Runs-quiet net req _ (λ s. refl)

  pub fetch_unless-Runs :
      (challenge : Challenge) (cached : Option Bytes)
      → Runs net req 0 1 (fetch_unless net challenge cached)
  unfolding fetch_unless fetch_token
  fetch_unless-Runs challenge (some token) = Runs-pure net req _ 0 1
  fetch_unless-Runs challenge none =
      Runs-bind net req 0 0 1 0 _ _
        (fetch_from-Runs challenge (net.parse_realm challenge.realm) refl)
        (keep_token-Runs challenge)

  pub cached_token-Runs :
      (challenge : Challenge) (entry : Option TokenEntry)
      → Runs net req 0 0 (cached_token net challenge entry)
  unfolding cached_token
  cached_token-Runs challenge none = Runs-pure net req _ 0 0
  cached_token-Runs challenge (some entry) = (record {
    at = λ s. record {
      extends = more same tt;
      few_forwards = omega arith;
      few_tokens = omega arith;
    };
  })

  pub get_or_fetch-Runs : (challenge : Challenge) → Runs net req 0 1 (get_or_fetch net challenge)
  unfolding get_or_fetch
  get_or_fetch-Runs challenge =
      Runs-bind net req 0 0 0 1 _ _ (Runs-quiet net req _ (λ s. refl)) λ entry.
        Runs-bind net req 0 0 0 1 _ _ (cached_token-Runs challenge entry)
          (fetch_unless-Runs challenge)
