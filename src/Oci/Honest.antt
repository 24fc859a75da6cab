-- ===== src/Oci/Honest.antt =====
-- Where the cached tokens come from.
use external_mirror_cache.Base.{
  ◌≡◌, ◌⊎◌, refl, sym, subst, Bool-cases, inl, inr, List, [], ◌∷◌, ◌++◌, Option, none, some, Bytes,
  codes, In, Eq, ◌==◌, nat_eq, bytes_eq, bytes_beq_iff,
}
use external_mirror_cache.Base.Assoc.{insert, delete}
use external_mirror_cache.Errors.{Error, Result, ok, err}
use external_mirror_cache.Oci.Challenge.{Challenge, challenge_eq}
use external_mirror_cache.Oci.Tokens.{Time, TokenEntry, after, sweep}
use external_mirror_cache.Oci.Tokens
use external_mirror_cache.Oci.Transport.{
  Response, ParsedRealm, TokenResponse, Network, Call, State, M, token_requested, param, pure, call,
  ◌>>=◌, token_text, on_token_response, on_endpoint, request_token, fetch_from, fetch_token,
  keep_token, fetch_unless, cached_token, get_or_fetch,
}

module _ {K V : Type 0} ⦃e : Eq K⦄ where
  In-insert :
      (f : K × V) (k : K) (v : V) (entries : List (K × V))
      → In f (insert k v entries)
      → (f ≡ (k, v)) ⊎ In f entries
  unfolding insert
  In-insert f k v [] = λ i. i
  In-insert f k v (g ∷ entries) = elim (Bool-cases (g.0 == k)) [
    | inl here ↦ rw here λ i. elim i [ inl same ↦ inl same | inr rest ↦ inr (inr rest) ]
    | inr other ↦ rw other λ i. elim i [
      | inl same ↦ inr (inl same)
      | inr rest ↦ elim (In-insert f k v entries rest) [
        | inl new ↦ inl new
        | inr old ↦ inr (inr old)
      ]
    ]
  ]

  pub In-delete :
      (f : K × V) (k : K) (entries : List (K × V)) → In f (delete k entries) → In f entries
  unfolding delete
  In-delete f k [] = λ i. i
  In-delete f k (g ∷ entries) = elim (Bool-cases (g.0 == k)) [
    | inl here ↦ rw here λ i. inr (In-delete f k entries i)
    | inr other ↦
        rw other λ i. elim i [ inl same ↦ inl same | inr rest ↦ inr (In-delete f k entries rest) ]
  ]

  pub In-sweep :
      (expiry_of : V → Time) (now : Time) (f : K × V) (entries : List (K × V))
      → In f (sweep expiry_of now entries)
      → In f entries
  unfolding sweep
  In-sweep expiry_of now f [] = λ i. i
  In-sweep expiry_of now f ((k, v) ∷ entries) = elim (Bool-cases (after now (expiry_of v))) [
    | inl old ↦ rw old λ i. inr (In-sweep expiry_of now f entries i)
    | inr young ↦
        rw young λ i. elim i [
          | inl same ↦ inl same
          | inr rest ↦ inr (In-sweep expiry_of now f entries rest)
        ]
  ]

-- A token for the challenge was asked of the https realm that the challenge names.
pub record IsAskedFor (net : Network) (c : Challenge) (calls : List Call) : Type 0 where
  pub realm : ParsedRealm
  pub parsed : net.parse_realm c.realm ≡ ok realm
  pub https : realm.scheme ≡ codes "https"
  pub asked :
      In
        (token_requested
          (realm.with_query (param (codes "service") c.service ++ param (codes "scope") c.scope)))
        calls

-- Every cached token stands under a challenge whose own endpoint was asked for one.
abbrev pub IsHonest : Network → State → Type 0
IsHonest net s = (f : Challenge × TokenEntry) → In f s.tokens → IsAskedFor net f.0 s.calls

module _ (net : Network) where
  pub IsAskedFor-more :
      (c : Challenge) (new : Call) (calls : List Call)
      → IsAskedFor net c calls
      → IsAskedFor net c (new ∷ calls)
  IsAskedFor-more c new calls a = record {
    realm = a.realm;
    parsed = a.parsed;
    https = a.https;
    asked = inr a.asked;
  }

  pub record Keeps {A : Type 0} (m : M A) : Type 0 where
    pub at : (s : State) → IsHonest net s → IsHonest net (m s).1

  pub Keeps-pure : {A : Type 0} (a : A) → Keeps (pure a)
  Keeps-pure a = record { at = λ s h. h }

  pub Keeps-bind :
      {A B : Type 0} (m : M A) (k : A → M B) → Keeps m → ((a : A) → Keeps (k a)) → Keeps (m >>= k)
  Keeps-bind m k first rest = record { at = λ s h. (rest (m s).0).at (m s).1 (first.at s h) }

  pub Keeps-call : {A : Type 0} (c : Call) (answer : List Call → A) → Keeps (call c answer)
  Keeps-call c answer = record { at = λ s h f among. IsAskedFor-more f.0 c s.calls (h f among) }

  -- An action that adds calls only.
  pub record Asks {A : Type 0} (c : Challenge) (m : M A) : Type 0 where
    pub at :
        (s : State)
        → IsHonest net s
        → IsAskedFor net c s.calls
        → IsHonest net (m s).1 × IsAskedFor net c (m s).1.calls

  Asks-pure : {A : Type 0} (c : Challenge) (a : A) → Asks c (pure a)
  Asks-pure c a = record { at = λ s h a. (h, a) }

  on_token_response-Asks :
      (c : Challenge) (tr : Result TokenResponse) → Asks c (on_token_response net tr)
  unfolding on_token_response
  on_token_response-Asks c (err e) = Asks-pure c _
  on_token_response-Asks c (ok tr) = elim (Bool-cases (token_text tr == [])) [
    | inl missing ↦ rw missing (Asks-pure c _)
    | inr found ↦ rw found (record {
      at = λ s h a.
          (λ f among. IsAskedFor-more f.0 _ s.calls (h f among), IsAskedFor-more c _ s.calls a);
    })
  ]

  on_endpoint-Asks : (c : Challenge) (answer : Result Response) → Asks c (on_endpoint net answer)
  unfolding on_endpoint
  on_endpoint-Asks c (err e) = Asks-pure c _
  on_endpoint-Asks c (ok resp) = elim (Bool-cases (resp.status == 200)) [
    | inl good ↦ rw good (on_token_response-Asks c (net.decode_token resp.body))
    | inr bad ↦ rw bad (Asks-pure c _)
  ]

  -- An action that has asked for the token that it answers with.
  pub record Fetches (c : Challenge) (m : M (Result (Bytes × Time))) : Type 0 where
    pub at :
        (s : State)
        → IsHonest net s
        → IsHonest net (m s).1
          × ((x : Bytes × Time) → (m s).0 ≡ ok x → IsAskedFor net c (m s).1.calls)

  Fetches-err : (c : Challenge) (e : Error) → Fetches c (pure (err e))
  Fetches-err c e = record { at = λ s h. (h, λ x same. absurd (cc)) }

  request_token-Fetches :
      (c : Challenge) (realm : ParsedRealm) (e : Option Error)
      → net.parse_realm c.realm ≡ ok realm
      → realm.scheme ≡ codes "https"
      → Fetches c (
          request_token net
            (realm.with_query (param (codes "service") c.service ++ param (codes "scope") c.scope))
            e)
  unfolding request_token
  request_token-Fetches c realm (some e) parsed https = Fetches-err c _
  request_token-Fetches c realm none parsed https = record {
    at = λ s h.
        let url =
          realm.with_query (param (codes "service") c.service ++ param (codes "scope") c.scope) in
        let s' : State = record s { calls = token_requested url ∷ s.calls } in
        let done =
          (on_endpoint-Asks c (net.token_round_trip s.calls url)).at s'
            (λ f among. IsAskedFor-more f.0 _ s.calls (h f among))
            (record { realm = realm; parsed = parsed; https = https; asked = inl refl }) in
        (done.0, λ x same. done.1);
  }

  fetch_from-Fetches :
      (c : Challenge) (realm : Result ParsedRealm)
      → net.parse_realm c.realm ≡ realm
      → Fetches c (fetch_from net c realm)
  unfolding fetch_from
  fetch_from-Fetches c (err e) parsed = Fetches-err c _
  fetch_from-Fetches c (ok realm) parsed = elim (Bool-cases (realm.scheme == codes "https")) [
    | inl https ↦ rw https (
        request_token-Fetches c realm _ parsed
          ((bytes_beq_iff realm.scheme (codes "https")).0 https))
    | inr other ↦ rw other (Fetches-err c _)
  ]

  keep_token-IsHonest :
      (c : Challenge) (r : Result (Bytes × Time)) (s : State)
      → IsHonest net s
      → ((x : Bytes × Time) → r ≡ ok x → IsAskedFor net c s.calls)
      → IsHonest net (keep_token net c r s).1
  unfolding keep_token Tokens.set
  keep_token-IsHonest c (err e) s h asked = h
  keep_token-IsHonest c (ok (token, expiry)) s h asked = λ f among.
      elim (In-insert f c _ s.tokens among) [
        | inl new ↦
            subst (λ (g : Challenge × TokenEntry). IsAskedFor net g.0 s.calls) (sym new)
              (asked (token, expiry) refl)
        | inr old ↦ h f old
      ]

  fetch_unless-Keeps : (c : Challenge) (cached : Option Bytes) → Keeps (fetch_unless net c cached)
  unfolding fetch_unless fetch_token
  fetch_unless-Keeps c (some token) = Keeps-pure _
  fetch_unless-Keeps c none = record {
    at = λ s h.
        let fetched = (fetch_from-Fetches c (net.parse_realm c.realm) refl).at s h in
        keep_token-IsHonest c _ (fetch_from net c (net.parse_realm c.realm) s).1 fetched.0
          fetched.1;
  }

  pub get_or_fetch-Keeps : (c : Challenge) → Keeps (get_or_fetch net c)
  unfolding get_or_fetch
  get_or_fetch-Keeps c =
      Keeps-bind _ _ (record { at = λ s h. h })
        λ entry. Keeps-bind _ _ (cached entry) (fetch_unless-Keeps c)
    where
      cached : (entry : Option TokenEntry) → Keeps (cached_token net c entry)
      cached none = unfold cached_token in Keeps-pure _
      cached (some entry) =
          unfold cached_token in
          (record { at = λ s h f among. IsAskedFor-more f.0 _ s.calls (h f among) })
