-- ===== src/Oci/Granted.antt =====
-- What `getOrFetch` leaves in the caches where it answers with a token.
use external_mirror_cache.Base.{
  ◌≡◌, refl, ◌∙◌, arith, Bool-cases, inl, inr, [], ◌∷◌, Option, none, some, Bytes, codes, ◌==◌,
  nat_eq, bytes_eq,
}
use external_mirror_cache.Base.Assoc.{lookup, lookup-insert}
use external_mirror_cache.Errors.{Error, Result, ok, err}
use external_mirror_cache.Oci.Challenge.{Challenge, challenge_eq}
use external_mirror_cache.Oci.Tokens.{Time, TokenEntry, after, live_token}
use external_mirror_cache.Oci.Tokens
use external_mirror_cache.Oci.Transport.{
  Response, ParsedRealm, TokenResponse, Network, State, M, clock, get_or_fetch, cached_token,
  fetch_unless, fetch_token, fetch_from, request_token, on_endpoint, on_token_response, token_text,
  keep_token,
}

module _ (net : Network) where
  -- An action that leaves the challenges alone.
  record Spares {A : Type 0} (m : M A) : Type 0 where
    at : (s : State) → (m s).1.challenges ≡ s.challenges

  on_token_response-Spares : (tr : Result TokenResponse) → Spares (on_token_response net tr)
  unfolding on_token_response
  on_token_response-Spares (err e) = record { at = λ s. refl }
  on_token_response-Spares (ok tr) = elim (Bool-cases (token_text tr == [])) [
    | inl missing ↦ rw missing (record { at = λ s. refl })
    | inr found ↦ rw found (record { at = λ s. refl })
  ]

  on_endpoint-Spares : (answer : Result Response) → Spares (on_endpoint net answer)
  unfolding on_endpoint
  on_endpoint-Spares (err e) = record { at = λ s. refl }
  on_endpoint-Spares (ok resp) = elim (Bool-cases (resp.status == 200)) [
    | inl good ↦ rw good (on_token_response-Spares (net.decode_token resp.body))
    | inr bad ↦ rw bad (record { at = λ s. refl })
  ]

  request_token-Spares : (url : Bytes) (e : Option Error) → Spares (request_token net url e)
  unfolding request_token
  request_token-Spares url (some e) = record { at = λ s. refl }
  request_token-Spares url none = record {
    at = λ s. (on_endpoint-Spares (net.token_round_trip s.calls url)).at _;
  }

  fetch_from-Spares : (c : Challenge) (realm : Result ParsedRealm) → Spares (fetch_from net c realm)
  unfolding fetch_from
  fetch_from-Spares c (err e) = record { at = λ s. refl }
  fetch_from-Spares c (ok realm) = elim (Bool-cases (realm.scheme == codes "https")) [
    | inl https ↦ rw https (request_token-Spares _ _)
    | inr other ↦ rw other (record { at = λ s. refl })
  ]

  -- What an answer with a token leaves: the token in the cache, and the challenges as they were.
  pub record IsCached (c : Challenge) (token : Bytes) (s s' : State) : Type 0 where
    pub entry : TokenEntry
    pub holds : lookup c s'.tokens ≡ some entry
    pub is_token : entry.token ≡ token
    pub challenges : s'.challenges ≡ s.challenges

  keep_token-IsCached :
      (c : Challenge) (r : Result (Bytes × Time)) (token : Bytes) (s : State)
      → (keep_token net c r s).0 ≡ ok token
      → IsCached c token s (keep_token net c r s).1
  unfolding keep_token Tokens.set
  keep_token-IsCached c (err e) token s h = absurd (cc)
  keep_token-IsCached c (ok (got, expiry)) token s h =
      let entry : TokenEntry = record { token = got; expiry = expiry } in
      record {
        entry = entry;
        holds = rw (lookup-insert c c entry s.tokens, (challenge_eq.test_iff c c).1 refl) refl;
        is_token = cc;
        challenges = refl;
      }

  fetch_unless-IsCached :
      (c : Challenge) (cached : Option Bytes) (token : Bytes) (s : State)
      → ((t : Bytes)
          → cached ≡ some t
          → (e : TokenEntry) × (lookup c s.tokens ≡ some e) × (e.token ≡ t))
      → (fetch_unless net c cached s).0 ≡ ok token
      → IsCached c token s (fetch_unless net c cached s).1
  unfolding fetch_unless fetch_token
  fetch_unless-IsCached c (some t) token s held h =
      let (e, holds, same) = held t refl in
      record { entry = e; holds = holds; is_token = cc; challenges = refl }
  fetch_unless-IsCached c none token s held h =
      let realm = net.parse_realm c.realm in
      let k =
        keep_token-IsCached c (fetch_from net c realm s).0 token (fetch_from net c realm s).1 h in
      record {
        entry = k.entry;
        holds = k.holds;
        is_token = k.is_token;
        challenges = k.challenges ∙ (fetch_from-Spares c realm).at s;
      }

  cached_by :
      (c : Challenge) (now : Time) (o : Option TokenEntry) (s : State)
      → lookup c s.tokens ≡ o
      → (t : Bytes) → live_token now o ≡ some t
      → (e : TokenEntry) × (lookup c s.tokens ≡ some e) × (e.token ≡ t)
  cached_by c now none s is t h = absurd (cc)
  cached_by c now (some e) s is t h = (e, is, ground arith)

  -- A token that `getOrFetch` answers with is cached.
  pub get_or_fetch-IsCached :
      (c : Challenge) (token : Bytes) (s : State)
      → (get_or_fetch net c s).0 ≡ ok token
      → IsCached c token s (get_or_fetch net c s).1
  unfolding get_or_fetch
  get_or_fetch-IsCached c token s = go (lookup c s.tokens) refl
    where
      go :
          (o : Option TokenEntry)
          → lookup c s.tokens ≡ o
          → (fetch_unless net c (cached_token net c o s).0 (cached_token net c o s).1).0 ≡ ok token
          → IsCached c token s
              (fetch_unless net c (cached_token net c o s).0 (cached_token net c o s).1).1
      go none is h =
          unfold cached_token in fetch_unless-IsCached c none token s (λ t e. absurd (cc)) h
      go (some e) is h =
          unfold cached_token Tokens.get in
          (let s' : State = record s { calls = clock ∷ s.calls } in
            let now : Time = net.time_now s.calls in
            let k =
              fetch_unless-IsCached c (live_token now (lookup c s.tokens)) token s'
                (cached_by c now (lookup c s.tokens) s' refl) h in
            record {
              entry = k.entry;
              holds = k.holds;
              is_token = k.is_token;
              challenges = k.challenges;
            })
