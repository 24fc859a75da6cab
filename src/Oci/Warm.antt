-- ===== src/Oci/Warm.antt =====
-- What a round trip costs once the challenge of a repository and a token for it are known.
use external_mirror_cache.Base.{
  ◌≡◌, refl, true, false, [], ◌∷◌, some, Bytes, codes, ◌==◌, nat_eq, bytes_eq, bytes_beq,
}
use external_mirror_cache.Base.Assoc.{lookup}
use external_mirror_cache.Errors.{ok}
use external_mirror_cache.Go.Header
use external_mirror_cache.Oci.Challenge.{challenge_eq}
use external_mirror_cache.Oci.Repository.{extract_oci_repository, challenge_key}
use external_mirror_cache.Oci.Tokens.{TokenEntry, after}
use external_mirror_cache.Oci.Tokens
use external_mirror_cache.Oci.Transport.{
  Request, Response, Network, State, ChallengeEntry, forwarded, clock, with_token, round_trip,
  in_repository, known_challenge, with_challenge, get_or_fetch, cached_token, fetch_unless,
  proactive, on_proactive,
}

-- The challenge of the request's repository is known and not expired, and neither is a token for it.
pub record IsKnown (net : Network) (req : Request) (s : State) (known : ChallengeEntry)
    (live : TokenEntry) : Type 0 where
  pub host : Bytes
  pub repo : Bytes
  pub bare : Header.get req.header (codes "Authorization") ≡ []
  pub repository : extract_oci_repository req.host req.path ≡ some (host, repo)
  pub challenge : lookup (challenge_key host repo) s.challenges ≡ some known
  pub challenge_live : after known.expiry (net.time_now s.calls) ≡ true
  pub token : lookup known.challenge s.tokens ≡ some live
  pub token_live : after (net.time_now (clock ∷ s.calls)) live.expiry ≡ false

-- A request without an Authorization for a repository whose challenge is known and not expired, with
-- a token for that challenge that is not expired, is sent once, with the token; where the answer is
-- not a 401 that is all: no token is asked for, and both caches stay as they are.
pub round_trip-IsKnown :
    (net : Network) (req : Request) (s : State) (known : ChallengeEntry) (live : TokenEntry)
    (resp : Response)
    → IsKnown net req s known live
    → net.round_trip_base (clock ∷ clock ∷ s.calls) (with_token live.token req) ≡ ok resp
    → (resp.status == 401) ≡ false
    → round_trip net req s ≡ (
      ok resp,
      record s { calls = forwarded (with_token live.token req) ∷ clock ∷ clock ∷ s.calls },
    )
unfolding round_trip in_repository known_challenge with_challenge get_or_fetch cached_token
    fetch_unless proactive on_proactive Tokens.get bytes_beq
round_trip-IsKnown net req s known live resp k answer fine =
    rw
      (
        k.bare, k.repository, k.challenge, k.challenge_live, k.token, k.token, k.token_live, answer,
        fine,
      )
      refl
