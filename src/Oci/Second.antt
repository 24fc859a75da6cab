-- ===== src/Oci/Second.antt =====
-- The second request for a repository, once the first has learned its challenge and got a token.
use external_mirror_cache.Base.{◌≡◌, true, [], ◌∷◌, none, some, Bytes, codes, nat_eq, bytes_eq}
use external_mirror_cache.Base.Int.{pos, ◌+ℤ◌}
use external_mirror_cache.Base.Assoc.{lookup, insert}
use external_mirror_cache.Errors.{ok}
use external_mirror_cache.Go.Header
use external_mirror_cache.Oci.Challenge.{Challenge, challenge_eq, parse_oci_auth_challenge}
use external_mirror_cache.Oci.Repository.{extract_oci_repository, challenge_key}
use external_mirror_cache.Oci.Tokens.{TokenEntry, live_token}
use external_mirror_cache.Oci.Tokens
use external_mirror_cache.Oci.Transport.{
  Request, Response, Network, State, forwarded, clock, is_idempotent, get_or_fetch,
}

module _ (net : Network) where
  -- The state once a challenge was learned for the repository of a request.
  abbrev pub learned : Request → Bytes → Challenge → State → State
  learned req key c s = record s {
    challenges =
        insert key
          (record {
            challenge = c;
            expiry = net.time_now (forwarded req ∷ s.calls) +ℤ pos 3600000000000;
          })
          s.challenges;
    calls = clock ∷ forwarded req ∷ s.calls;
  }

  -- A GET or HEAD without an Authorization, for a repository of which nothing is known, is answered
  -- with a challenge, for which a token can be had.
  pub record IsFirst (req : Request) (host repo : Bytes) (c : Challenge) (token : Bytes) (s : State)
      : Type 0 where
    pub bare : Header.get req.header (codes "Authorization") ≡ []
    pub repository : extract_oci_repository req.host req.path ≡ some (host, repo)
    pub safe : is_idempotent req ≡ true
    pub unknown : lookup (challenge_key host repo) s.challenges ≡ none
    pub denied : Response
    pub answer : net.round_trip_base s.calls req ≡ ok denied
    pub challenged : parse_oci_auth_challenge net.std denied.status denied.header ≡ some c
    pub granted : (get_or_fetch net c (learned req (challenge_key host repo) c s)).0 ≡ ok token

  -- What the first request leaves in the caches.
  record IsWarm (key : Bytes) (c : Challenge) (token : Bytes) (req : Request) (s s' : State)
      : Type 0 where
    entry : TokenEntry
    holds : lookup c s'.tokens ≡ some entry
    is_token : entry.token ≡ token
    known :
        lookup key s'.challenges
        ≡ some (record {
          challenge = c;
          expiry = net.time_now (forwarded req ∷ s.calls) +ℤ pos 3600000000000;
        })
