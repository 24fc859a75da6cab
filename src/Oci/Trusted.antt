-- ===== src/Oci/Trusted.antt =====
-- The cached tokens, over any sequence of round trips and sweeps.
use external_mirror_cache.Base.{
  Bool, true, false, ◌&&◌, Bool-cases, inl, inr, List, [], ◌∷◌, Option, none, some, Bytes, codes,
  ◌==◌, nat_eq, bytes_eq, if◌then◌else◌,
}
use external_mirror_cache.Errors.{Result, ok, err}
use external_mirror_cache.Oci.Challenge.{Challenge, challenge_eq}
use external_mirror_cache.Oci.Repository.{extract_oci_repository, challenge_key}
use external_mirror_cache.Go.Header
use external_mirror_cache.Oci.Tokens.{TokenEntry}
use external_mirror_cache.Oci.Tokens
use external_mirror_cache.Oci.Transport.{
  Request, Response, Network, State, forward, wrap, forwarded, clock, pure, ◌>>=◌, is_idempotent,
  with_token, get_or_fetch, retry, learn, same_as, on_challenge, on_bare, discovery_path, forget,
  on_proactive, proactive, known_challenge, with_challenge, in_repository, round_trip,
  ChallengeEntry,
}
use external_mirror_cache.Oci.Sweeper.{
  Signal, tick, closed, sweep_challenges, sweep_tokens, sweep_loop,
}
use external_mirror_cache.Oci.Honest.{
  In-delete, In-sweep, IsHonest, IsAskedFor-more, Keeps, Keeps-pure, Keeps-bind, get_or_fetch-Keeps,
}

module _ (net : Network) where
  wrapped-Keeps :
      (r : Request) (message : Bytes)
      → Keeps net (forward net r >>= λ answer. pure (wrap message answer))
  wrapped-Keeps r message = record {
    at = λ s h f among. IsAskedFor-more net f.0 (forwarded r) s.calls (h f among);
  }

  forward-Keeps : (r : Request) → Keeps net (forward net r)
  forward-Keeps r = record {
    at = λ s h f among. IsAskedFor-more net f.0 (forwarded r) s.calls (h f among);
  }

  retry-Keeps :
      (req : Request) (bare : Response) (token : Result Bytes)
      → Keeps net (retry net req bare token)
  unfolding retry
  retry-Keeps req bare (err e) = Keeps-pure net _
  retry-Keeps req bare (ok token) =
      wrapped-Keeps (with_token token req) (codes "oci auth retry with token")

  learn-Keeps : (key : Bytes) (c : Challenge) → Keeps net (learn net key c)
  unfolding learn
  learn-Keeps key c = record {
    at = λ s h f among. IsAskedFor-more net f.0 clock s.calls (h f among);
  }

  answer-Keeps :
      (req : Request) (resp : Response) (c : Challenge) (again : Bool)
      → Keeps net (if again then pure (ok resp) else (get_or_fetch net c >>= retry net req resp))
  answer-Keeps req resp c true = Keeps-pure net _
  answer-Keeps req resp c false =
      Keeps-bind net _ _ (get_or_fetch-Keeps net c) (retry-Keeps req resp)

  on_challenge-Keeps :
      (req : Request) (key : Bytes) (failed : Option Challenge) (resp : Response)
      (found : Option Challenge)
      → Keeps net (on_challenge net req key failed resp found)
  unfolding on_challenge
  on_challenge-Keeps req key failed resp none = Keeps-pure net _
  on_challenge-Keeps req key failed resp (some c) =
      Keeps-bind net _ _ (learn-Keeps key c) λ _. answer-Keeps req resp c (same_as net failed c)

  on_bare-Keeps :
      (req : Request) (key : Bytes) (failed : Option Challenge) (answer : Result Response)
      → Keeps net (on_bare net req key failed answer)
  unfolding on_bare
  on_bare-Keeps req key failed (err e) = Keeps-pure net _
  on_bare-Keeps req key failed (ok resp) = on_challenge-Keeps req key failed resp _

  discovery_path-Keeps :
      (req : Request) (host repo : Bytes) (failed : Option Challenge)
      → Keeps net (discovery_path net req host repo failed)
  unfolding discovery_path
  discovery_path-Keeps req host repo failed = elim (Bool-cases (is_idempotent req)) [
    | inl safe ↦ rw safe (
        Keeps-bind net _ _ (forward-Keeps req) (on_bare-Keeps req (challenge_key host repo) failed))
    | inr unsafe ↦ rw unsafe (wrapped-Keeps req (codes "oci auth non-idempotent passthrough"))
  ]

  forget-Keeps : (key : Bytes) (c : Challenge) → Keeps net (forget net key c)
  unfolding forget Tokens.evict
  forget-Keeps key c = record { at = λ s h f among. h f (In-delete f c s.tokens among) }

  on_proactive-Keeps :
      (req : Request) (host repo : Bytes) (c : Challenge) (answer : Result Response)
      → Keeps net (on_proactive net req host repo c answer)
  unfolding on_proactive
  on_proactive-Keeps req host repo c (err e) = Keeps-pure net _
  on_proactive-Keeps req host repo c (ok resp) =
      elim (Bool-cases (resp.status == 401 && is_idempotent req)) [
        | inl stale ↦ rw stale (
            Keeps-bind net _ _ (forget-Keeps (challenge_key host repo) c)
              λ _. discovery_path-Keeps req host repo none)
        | inr fine ↦ rw fine (Keeps-pure net _)
      ]

  proactive-Keeps :
      (req : Request) (host repo : Bytes) (c : Challenge) (token : Result Bytes)
      → Keeps net (proactive net req host repo c token)
  unfolding proactive
  proactive-Keeps req host repo c (err e) = discovery_path-Keeps req host repo (some c)
  proactive-Keeps req host repo c (ok token) =
      Keeps-bind net _ _ (forward-Keeps (with_token token req)) (on_proactive-Keeps req host repo c)

  known_challenge-Keeps : (entry : Option ChallengeEntry) → Keeps net (known_challenge net entry)
  unfolding known_challenge
  known_challenge-Keeps none = Keeps-pure net _
  known_challenge-Keeps (some entry) = record {
    at = λ s h f among. IsAskedFor-more net f.0 clock s.calls (h f among);
  }

  with_challenge-Keeps :
      (req : Request) (host repo : Bytes) (known : Option Challenge)
      → Keeps net (with_challenge net req host repo known)
  unfolding with_challenge
  with_challenge-Keeps req host repo none = discovery_path-Keeps req host repo none
  with_challenge-Keeps req host repo (some c) =
      Keeps-bind net _ _ (get_or_fetch-Keeps net c) (proactive-Keeps req host repo c)

  in_repository-Keeps :
      (req : Request) (repo : Option (Bytes × Bytes)) → Keeps net (in_repository net req repo)
  unfolding in_repository
  in_repository-Keeps req none = forward-Keeps req
  in_repository-Keeps req (some (host, repo)) =
      Keeps-bind net _ _ (record { at = λ s h. h })
        λ entry.
          Keeps-bind net _ _ (known_challenge-Keeps entry) (with_challenge-Keeps req host repo)

  round_trip-Keeps : (req : Request) → Keeps net (round_trip net req)
  unfolding round_trip
  round_trip-Keeps req = elim (Bool-cases (Header.get req.header (codes "Authorization") == [])) [
    | inl absent ↦ rw absent (in_repository-Keeps req (extract_oci_repository req.host req.path))
    | inr own ↦ rw own (forward-Keeps req)
  ]

  sweep_loop-Keeps : (signals : List Signal) → Keeps net (sweep_loop net signals)
  unfolding sweep_loop sweep_challenges sweep_tokens
  sweep_loop-Keeps [] = Keeps-pure net _
  sweep_loop-Keeps (closed ∷ signals) = Keeps-pure net _
  sweep_loop-Keeps (tick ∷ signals) = record {
    at = λ s h. (sweep_loop-Keeps signals).at _ λ f among.
        IsAskedFor-more net f.0 clock _
          (IsAskedFor-more net f.0 clock s.calls (h f (In-sweep _ _ f s.tokens among)));
  }

  -- What happens to the transport: a request, or the signals of a sweep.
  pub data Turn : Type 0 where
    trips : Request → Turn
    sweeps : List Signal → Turn

  abbrev pub turn : Turn → State → State
  turn (trips req) s = (round_trip net req s).1
  turn (sweeps signals) s = (sweep_loop net signals s).1

  -- In their order.
  abbrev pub turns : List Turn → State → State
  turns [] s = s
  turns (t ∷ ts) s = turns ts (turn t s)

  turn-IsHonest : (t : Turn) (s : State) → IsHonest net s → IsHonest net (turn t s)
  turn-IsHonest (trips req) s h = (round_trip-Keeps req).at s h
  turn-IsHonest (sweeps signals) s h = (sweep_loop-Keeps signals).at s h

  turns-Keeps : (ts : List Turn) (s : State) → IsHonest net s → IsHonest net (turns ts s)
  turns-Keeps [] s h = h
  turns-Keeps (t ∷ ts) s h = turns-Keeps ts (turn t s) (turn-IsHonest t s h)

  -- From empty caches, after any sequence of round trips and sweeps and whatever the network
  -- answered: each cached token stands under a challenge whose realm is an https URL, and a token for
  -- that very service and scope was asked of that realm.
  pub turns-IsHonest :
      (ts : List Turn)
      → IsHonest net (turns ts (record { challenges = []; tokens = []; calls = [] }))
  turns-IsHonest ts = turns-Keeps ts _ (λ f among. absurd among)
