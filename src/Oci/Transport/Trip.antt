-- ===== src/Oci/Transport/Trip.antt =====
-- oci_auth.go: `ociAuthTransport.RoundTrip` and `discoveryPath`.
use external_mirror_cache.Base.{
  Bool, false, not, ◌&&◌, ◌||◌, [], ◌++◌, Option, none, some, Bytes, codes, ◌==◌, nat_eq, bytes_eq,
  if◌then◌else◌,
}
use external_mirror_cache.Base.Int.{ℤ, pos, ◌+ℤ◌}
use external_mirror_cache.Base.Assoc.{lookup, insert, delete}
use external_mirror_cache.Errors.{wrapped, Result, ok, err}
use external_mirror_cache.Go.Header.{Header}
use external_mirror_cache.Go.Header
use external_mirror_cache.Oci.Challenge.{Challenge, challenge_eq, parse_oci_auth_challenge}
use external_mirror_cache.Oci.Repository.{extract_oci_repository, challenge_key}
use external_mirror_cache.Oci.Tokens.{Time, TokenCache, TokenEntry, after, buffered_duration}
use external_mirror_cache.Oci.Tokens
use external_mirror_cache.Oci.Transport.Wire.{
  Request, Response, forwarded, clock, Network, ChallengeEntry, M, pure, ◌>>=◌, ◌>>◌, call, wrap,
}
use external_mirror_cache.Oci.Transport.Fetch.{get_or_fetch}

-- challengeTTL, in nanoseconds
abbrev challenge_ttl : ℤ
challenge_ttl = pos 3600000000000

abbrev pub is_idempotent : Request → Bool
is_idempotent req = req.method == codes "GET" || req.method == codes "HEAD"

-- The cloned request with the token.
unfoldable pub with_token : Bytes → Request → Request
with_token token req = record req {
  header = Header.set req.header (codes "Authorization") (codes "Bearer " ++ token);
}

module _ (net : Network) where
  abbrev pub forward : Request → M (Result Response)
  forward req = call (forwarded req) (λ calls. net.round_trip_base calls req)

  unfoldable pub retry : Request → Response → Result Bytes → M (Result Response)
  retry req bare (err e) = pure (ok bare)
  retry req bare (ok token) = do
    answer ← forward (with_token token req)
    pure (wrap (codes "oci auth retry with token") answer)

  abbrev pub same_as : Option Challenge → Challenge → Bool
  same_as none challenge = false
  same_as (some failed) challenge = challenge == failed

  unfoldable pub learn : Bytes → Challenge → M (Unit {0})
  learn key challenge = do
    now ← call clock net.time_now
    λ s. (
      tt,
      record s {
        challenges =
            insert key (record { challenge = challenge; expiry = now +ℤ challenge_ttl })
              s.challenges;
      },
    )

  unfoldable pub on_challenge :
      Request → Bytes → Option Challenge → Response → Option Challenge → M (Result Response)
  on_challenge req key failed resp none = pure (ok resp)
  on_challenge req key failed resp (some challenge) = do
    learn key challenge
    if same_as failed challenge
        then pure (ok resp)
        else do token ← get_or_fetch net challenge; retry req resp token

  unfoldable pub on_bare :
      Request → Bytes → Option Challenge → Result Response → M (Result Response)
  on_bare req key failed (err e) = pure (err (wrapped (codes "oci auth discovery request") [] e))
  on_bare req key failed (ok resp) =
      on_challenge req key failed resp (parse_oci_auth_challenge net.std resp.status resp.header)

  unfoldable pub discovery_path : Request → Bytes → Bytes → Option Challenge → M (Result Response)
  discovery_path req host repo failed =
      if not (is_idempotent req)
      then (do
        answer ← forward req
        pure (wrap (codes "oci auth non-idempotent passthrough") answer))
      else (do answer ← forward req; on_bare req (challenge_key host repo) failed answer)

  unfoldable pub forget : Bytes → Challenge → M (Unit {0})
  forget key challenge s = (
    tt,
    record s { challenges = delete key s.challenges; tokens = Tokens.evict challenge s.tokens },
  )

  unfoldable pub on_proactive :
      Request → Bytes → Bytes → Challenge → Result Response → M (Result Response)
  on_proactive req host repo challenge (err e) =
      pure (err (wrapped (codes "oci auth proactive request") [] e))
  on_proactive req host repo challenge (ok resp) =
      if resp.status == 401 && is_idempotent req
      then (do forget (challenge_key host repo) challenge; discovery_path req host repo none)
      else pure (ok resp)

  unfoldable pub proactive :
      Request → Bytes → Bytes → Challenge → Result Bytes → M (Result Response)
  proactive req host repo challenge (err e) = discovery_path req host repo (some challenge)
  proactive req host repo challenge (ok token) = do
    answer ← forward (with_token token req)
    on_proactive req host repo challenge answer

  unfoldable pub known_challenge : Option ChallengeEntry → M (Option Challenge)
  known_challenge none = pure none
  known_challenge (some entry) = do
    now ← call clock net.time_now
    pure (if after entry.expiry now then some entry.challenge else none)

  unfoldable pub with_challenge : Request → Bytes → Bytes → Option Challenge → M (Result Response)
  with_challenge req host repo none = discovery_path req host repo none
  with_challenge req host repo (some challenge) = do
    token ← get_or_fetch net challenge
    proactive req host repo challenge token

  unfoldable pub in_repository : Request → Option (Bytes × Bytes) → M (Result Response)
  in_repository req none = forward req
  in_repository req (some (host, repo)) = do
    entry ← λ s. (lookup (challenge_key host repo) s.challenges, s)
    known ← known_challenge entry
    with_challenge req host repo known

  unfoldable pub round_trip : Request → M (Result Response)
  round_trip req =
      if not (Header.get req.header (codes "Authorization") == [])
      then forward req
      else in_repository req (extract_oci_repository req.host req.path)
