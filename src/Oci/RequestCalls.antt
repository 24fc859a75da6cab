-- ===== src/Oci/RequestCalls.antt =====
-- The calls of `RoundTrip` and `discoveryPath`, as a whole.
use external_mirror_cache.Base.{
  ◌+◌, refl, arith, Bool, true, false, [], Option, none, some, Bytes, codes, Bool-cases, inl, inr,
  ◌==◌, nat_eq, bytes_eq, if◌then◌else◌,
}
use external_mirror_cache.Errors.{Result, ok, err}
use external_mirror_cache.Oci.Challenge.{Challenge}
use external_mirror_cache.Oci.Repository.{challenge_key, extract_oci_repository}
use external_mirror_cache.Go.Header
use external_mirror_cache.Oci.Transport.{
  Request, Response, Network, ChallengeEntry, pure, ◌>>=◌, is_idempotent, with_token, get_or_fetch,
  retry, learn, on_challenge, on_bare, discovery_path, forget, on_proactive, proactive,
  known_challenge, with_challenge, in_repository, round_trip, same_as,
}
use external_mirror_cache.Oci.Calls.{
  same, more, Runs, Runs-pure, Runs-bind, Runs-forward, Runs-quiet, Runs-weaken, Runs-quiet-bind,
  retries,
}
use external_mirror_cache.Oci.TokenCalls.{get_or_fetch-Runs}

module _ (net : Network) (req : Request) where
  retry-Runs :
      (bare : Response) (token : Result Bytes) → Runs net req 1 0 (retry net req bare token)
  unfolding retry
  retry-Runs bare (err e) = Runs-pure net req _ 1 0
  retry-Runs bare (ok token) = (record {
    at = λ s. record {
      extends = more same (inr (token, refl));
      few_forwards = omega arith;
      few_tokens = omega arith;
    };
  })

  learn-Runs : (key : Bytes) (challenge : Challenge) → Runs net req 0 0 (learn net key challenge)
  unfolding learn
  learn-Runs key challenge = (record {
    at = λ s. record {
      extends = more same tt;
      few_forwards = omega arith;
      few_tokens = omega arith;
    };
  })

  answer_challenge-Runs :
      (challenge : Challenge) (resp : Response) (again : Bool)
      → Runs net req 1 1
          (if again then pure (ok resp) else (get_or_fetch net challenge >>= retry net req resp))
  answer_challenge-Runs challenge resp true = Runs-pure net req _ 1 1
  answer_challenge-Runs challenge resp false =
      Runs-bind net req 0 1 1 0 _ _ (get_or_fetch-Runs net req challenge) (retry-Runs resp)

  on_challenge-Runs :
      (key : Bytes) (failed : Option Challenge) (resp : Response) (found : Option Challenge)
      → Runs net req 1 1 (on_challenge net req key failed resp found)
  unfolding on_challenge
  on_challenge-Runs key failed resp none = Runs-pure net req _ 1 1
  on_challenge-Runs key failed resp (some challenge) =
      Runs-bind net req 0 1 0 1 _ _ (learn-Runs key challenge)
        (λ _. answer_challenge-Runs challenge resp (same_as net failed challenge))

  on_bare-Runs :
      (key : Bytes) (failed : Option Challenge) (answer : Result Response)
      → Runs net req 1 1 (on_bare net req key failed answer)
  unfolding on_bare
  on_bare-Runs key failed (err e) = Runs-pure net req _ 1 1
  on_bare-Runs key failed (ok resp) = on_challenge-Runs key failed resp _

  discovery_path-Runs :
      (host repo : Bytes) (failed : Option Challenge)
      → Runs net req (1 + retries net req 1) 1 (discovery_path net req host repo failed)
  unfolding discovery_path
  discovery_path-Runs host repo failed = elim (Bool-cases (is_idempotent req)) [
    | inl idempotent ↦ rw idempotent (
        Runs-bind net req 1 1 0 1 _ _ (Runs-forward net req req (inl refl))
          (on_bare-Runs (challenge_key host repo) failed))
    | inr other ↦ rw other (record {
      at = λ s. record {
        extends = more same (inl refl);
        few_forwards = omega arith;
        few_tokens = omega arith;
      };
    })
  ]

  forget-Runs : (key : Bytes) (challenge : Challenge) → Runs net req 0 0 (forget net key challenge)
  unfolding forget
  forget-Runs key challenge = Runs-quiet net req _ (λ s. refl)

  on_proactive-Runs :
      (host repo : Bytes) (challenge : Challenge) (answer : Result Response)
      → Runs net req (retries net req 2) 1 (on_proactive net req host repo challenge answer)
  unfolding on_proactive
  on_proactive-Runs host repo challenge (err e) = Runs-pure net req _ (retries net req 2) 1
  on_proactive-Runs host repo challenge (ok resp) = elim (Bool-cases (resp.status == 401)) [
    | inr good ↦ rw good (Runs-pure net req _ (retries net req 2) 1)
    | inl denied ↦ elim (Bool-cases (is_idempotent req)) [
      | inr other ↦ rw (denied, other) (Runs-pure net req _ 0 1)
      | inl idempotent ↦
          rw (denied, idempotent)
            (Runs-bind net req 0 2 0 1 _ _ (forget-Runs (challenge_key host repo) challenge)
              (λ _. rw idempotent at discovery_path-Runs host repo none))
    ]
  ]

  proactive-Runs :
      (host repo : Bytes) (challenge : Challenge) (token : Result Bytes)
      → Runs net req (1 + retries net req 2) 1 (proactive net req host repo challenge token)
  unfolding proactive
  proactive-Runs host repo challenge (err e) = record {
    at = λ s.
        let r = (discovery_path-Runs host repo (some challenge)).at s in
        record {
          extends = r.extends;
          few_forwards = let f = r.few_forwards in ground arith;
          few_tokens = r.few_tokens;
        };
  }
  proactive-Runs host repo challenge (ok token) =
      Runs-bind net req 1 (retries net req 2) 0 1 _ _
        (Runs-forward net req (with_token token req) (inr (token, refl)))
        (on_proactive-Runs host repo challenge)

  with_challenge-Runs :
      (host repo : Bytes) (known : Option Challenge)
      → Runs net req (1 + retries net req 2) 2 (with_challenge net req host repo known)
  unfolding with_challenge
  with_challenge-Runs host repo none =
      Runs-weaken net req (1 + retries net req 1) 1 (1 + retries net req 2) 2 _
        (discovery_path-Runs host repo none) (ground arith) (omega arith)
  with_challenge-Runs host repo (some challenge) =
      Runs-weaken net req (0 + (1 + retries net req 2)) (1 + 1) (1 + retries net req 2) 2 _
        (Runs-bind net req 0 (1 + retries net req 2) 1 1 _ _ (get_or_fetch-Runs net req challenge)
          (proactive-Runs host repo challenge))
        (omega arith) (omega arith)

  known_challenge-Runs :
      (entry : Option ChallengeEntry) → Runs net req 0 0 (known_challenge net entry)
  unfolding known_challenge
  known_challenge-Runs none = Runs-pure net req _ 0 0
  known_challenge-Runs (some entry) = record {
    at = λ s. record {
      extends = more same tt;
      few_forwards = omega arith;
      few_tokens = omega arith;
    };
  }

  in_repository-Runs :
      (repo : Option (Bytes × Bytes))
      → Runs net req (1 + retries net req 2) 2 (in_repository net req repo)
  unfolding in_repository
  in_repository-Runs none =
      Runs-weaken net req 1 0 (1 + retries net req 2) 2 _ (Runs-forward net req req (inl refl))
        (omega arith) (omega arith)
  in_repository-Runs (some (host, repo)) =
      Runs-quiet-bind net req _ _ (λ s. refl)
        λ entry.
          Runs-weaken net req (0 + (1 + retries net req 2)) 2 (1 + retries net req 2) 2 _
            (Runs-bind net req 0 (1 + retries net req 2) 0 2 _ _ (known_challenge-Runs entry)
              (with_challenge-Runs host repo))
            (omega arith) (omega arith)

  -- One round trip, from any state of the caches and whatever the network answers, sends the
  -- request at most three times where it is a GET or a HEAD and else at most once, and asks at
  -- most twice for a token. Each request that it sends is the caller's own, or that with a bearer
  -- token for its Authorization; each token is asked of a realm whose scheme is https.
  pub round_trip-Runs : Runs net req (1 + retries net req 2) 2 (round_trip net req)
  unfolding round_trip
  round_trip-Runs = elim (Bool-cases (Header.get req.header (codes "Authorization") == [])) [
    | inl absent ↦ rw absent (in_repository-Runs (extract_oci_repository req.host req.path))
    | inr own ↦ rw own (
        Runs-weaken net req 1 0 (1 + retries net req 2) 2 _ (Runs-forward net req req (inl refl))
          (omega arith) (omega arith))
  ]
