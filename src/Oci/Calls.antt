-- ===== src/Oci/Calls.antt =====
-- The calls that one request makes: which, and how many.
use external_mirror_cache.Base.{
  ℕ, ◌+◌, ◌≤◌, ◌≡◌, ◌⊎◌, arith, Bool, true, false, List, [], ◌∷◌, ◌++◌, Bytes, codes, subst, nat_eq,
  bytes_eq, if◌then◌else◌,
}
use external_mirror_cache.Errors.{ok}
use external_mirror_cache.Oci.Challenge.{Challenge}
use external_mirror_cache.Oci.Transport.{
  Request, ParsedRealm, Call, forwarded, token_requested, clock, Network, State, M, pure, ◌>>=◌,
  param, is_idempotent, with_token, forward,
}

abbrev pub is_forwarded : Call → Bool
is_forwarded (forwarded req) = true
is_forwarded _ = false

abbrev pub is_token : Call → Bool
is_token (token_requested url) = true
is_token _ = false

abbrev pub count : (Call → Bool) → List Call → ℕ
count p [] = 0
count p (c ∷ cs) = (if p c then 1 else 0) + count p cs

-- A token is asked of an endpoint whose URL is that of an https realm, with the challenge's
-- service and scope in its query.
pub record IsEndpoint (net : Network) (url : Bytes) : Type 0 where
  pub challenge : Challenge
  pub realm : ParsedRealm
  pub parsed : net.parse_realm challenge.realm ≡ ok realm
  pub https : realm.scheme ≡ codes "https"
  pub is_url :
      url
      ≡ realm.with_query
          (param (codes "service") challenge.service ++ param (codes "scope") challenge.scope)

-- The calls allowed for a request: the request itself, or with a token; and token endpoints.
abbrev pub IsCall : Network → Request → Call → Type 0
IsCall net req (forwarded r) = (r ≡ req) ⊎ ((token : Bytes) × (r ≡ with_token token req))
IsCall net req (token_requested url) = IsEndpoint net url
IsCall net req clock = Unit

-- The second list is the first with calls of the kind in front of it.
pub data Extends (P : Call → Type 0) (old : List Call) : List Call → Type 0 where
  same : Extends P old old
  more : {c : Call} {cs : List Call} → Extends P old cs → P c → Extends P old (c ∷ cs)

Extends-trans :
    {P : Call → Type 0} {a b c : List Call} → Extends P a b → Extends P b c → Extends P a c
Extends-trans e same = e
Extends-trans e (more f p) = more (Extends-trans e f) p

module _ (net : Network) (req : Request) where
  pub record Ran (forwards tokens : ℕ) (old new : List Call) : Type 0 where
    pub extends : Extends (IsCall net req) old new
    pub few_forwards : count is_forwarded new ≤ count is_forwarded old + forwards
    pub few_tokens : count is_token new ≤ count is_token old + tokens

  -- An action that makes no more than so many calls, all of them allowed.
  pub record Runs {A : Type 0} (f t : ℕ) (m : M A) : Type 0 where
    pub at : (s : State) → Ran f t s.calls (m s).1.calls

  pub Runs-pure : {A : Type 0} (a : A) (f t : ℕ) → Runs f t (pure a)
  Runs-pure a f t = record {
    at = λ s. record { extends = same; few_forwards = omega arith; few_tokens = omega arith };
  }

  pub Runs-bind :
      {A B : Type 0} (f g t u : ℕ) (m : M A) (k : A → M B)
      → Runs f t m
      → ((a : A) → Runs g u (k a))
      → Runs (f + g) (t + u) (m >>= k)
  Runs-bind f g t u m k first rest = record {
    at = λ s.
        let a = first.at s in
        let b = (rest (m s).0).at (m s).1 in
        record {
          extends = Extends-trans a.extends b.extends;
          few_forwards = let x = a.few_forwards in let y = b.few_forwards in omega arith;
          few_tokens = let x = a.few_tokens in let y = b.few_tokens in omega arith;
        };
  }

  pub Runs-forward : (r : Request) → IsCall net req (forwarded r) → Runs 1 0 (forward net r)
  Runs-forward r p = record {
    at =
        λ s. record { extends = more same p; few_forwards = omega arith; few_tokens = omega arith };
  }

  -- A step that makes no call.
  pub Runs-quiet : {A : Type 0} (m : M A) → ((s : State) → (m s).1.calls ≡ s.calls) → Runs 0 0 m
  Runs-quiet m quiet = record {
    at = λ s.
        rw (quiet s)
          (record { extends = same; few_forwards = omega arith; few_tokens = omega arith });
  }

  -- The same with room for more.
  pub Runs-weaken : {A : Type 0} (f t g u : ℕ) (m : M A) → Runs f t m → f ≤ g → t ≤ u → Runs g u m
  Runs-weaken f t g u m runs le le' = record {
    at = λ s.
        let r = runs.at s in
        record {
          extends = r.extends;
          few_forwards = let x = r.few_forwards in omega arith;
          few_tokens = let x = r.few_tokens in omega arith;
        };
  }

  pub Runs-quiet-bind :
      {A B : Type 0} {g u : ℕ} (m : M A) (k : A → M B)
      → ((s : State) → (m s).1.calls ≡ s.calls)
      → ((a : A) → Runs g u (k a))
      → Runs g u (m >>= k)
  Runs-quiet-bind {g = g} {u = u} m k quiet rest = record {
    at = λ s.
        subst (λ c. Ran g u c (k (m s).0 (m s).1).1.calls) (quiet s) ((rest (m s).0).at (m s).1);
  }

  -- The requests beyond the first that an idempotent request may cost.
  abbrev pub retries : ℕ → ℕ
  retries n = if is_idempotent req then n else 0
