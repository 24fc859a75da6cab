-- ===== src/S3/Missed.antt =====
-- The three outcomes of `Head`.
use external_mirror_cache.Base.{
  ◌≡◌, ◌↔◌, ◌⊎◌, inl, inr, refl, sym, subst, arith, List, Bool, true, Bytes, codes, Option, none,
  some, bytes_eq, bytes_beq_iff, Bool-cases,
}
use external_mirror_cache.Go.Header.{Header}
use external_mirror_cache.Errors.{Error, foreign, wrapped, Result, ok, err, api_error_code}
use external_mirror_cache.Cache.{CacheKey, CachedEntry}
use external_mirror_cache.S3.Metadata.{Json, metadata_to_header}
use external_mirror_cache.S3.Api.{Api, HeadOutput}
use external_mirror_cache.S3.Store.{
  HttpCache, place_of, is_absent_code, with_headers, on_head, head,
}

-- An error of the service with the code, under any number of wrappers.
pub data IsApiError (code : Bytes) : Error → Type 0 where
  bare : (is_net : Bool) (text : Bytes) → IsApiError code (foreign is_net (some code) text)
  under :
      (format : Bytes) (args : List Bytes) (e : Error)
      → IsApiError code e
      → IsApiError code (wrapped format args e)

-- S3 has no such object; or it does not say so, where the role may not list the bucket.
abbrev pub IsAbsent : Error → Type 0
IsAbsent e = IsApiError (codes "NotFound") e ⊎ IsApiError (codes "Forbidden") e

IsApiError-code : (code : Bytes) (e : Error) → IsApiError code e → api_error_code e ≡ some code
unfolding api_error_code
IsApiError-code code _ (bare is_net text) = refl
IsApiError-code code _ (under format args e i) = IsApiError-code code e i

code-IsApiError : (code : Bytes) (e : Error) → api_error_code e ≡ some code → IsApiError code e
unfolding api_error_code
code-IsApiError code (foreign is_net c text) h =
    subst (λ (d : Option Bytes). IsApiError code (foreign is_net d text)) (sym h) (bare is_net text)
code-IsApiError code (wrapped format args e) h = under format args e (code-IsApiError code e h)
code-IsApiError code _ h = absurd (cc)

is_absent_code-cases :
    (o : Option Bytes)
    → (is_absent_code o ≡ true) ↔ ((o ≡ some (codes "NotFound")) ⊎ (o ≡ some (codes "Forbidden")))
is_absent_code-cases none = ground arith
is_absent_code-cases (some code) =
    ground (arith, bytes_beq_iff code (codes "NotFound"), bytes_beq_iff code (codes "Forbidden"))

absent-IsAbsent : (e : Error) → (is_absent_code (api_error_code e) ≡ true) ↔ IsAbsent e
absent-IsAbsent e = (
  λ h. elim ((is_absent_code-cases (api_error_code e)).0 h) [
    | inl missing ↦ inl (code-IsApiError _ e missing)
    | inr denied ↦ inr (code-IsApiError _ e denied)
  ],
  λ h. (is_absent_code-cases (api_error_code e)).1 (elim h [
    | inl missing ↦ inl (IsApiError-code _ e missing)
    | inr denied ↦ inr (IsApiError-code _ e denied)
  ]),
)

module _ {State : Type 0} (api : Api State) (j : Json) (c : HttpCache) (key : CacheKey)
    (s : State) where
  abbrev answer : Result HeadOutput
  answer = api.head_object s (place_of c key)

  -- What a lookup says, by what the service answers.
  pub record IsLookup (found : Result (Option CachedEntry)) : Type 0 where
    pub missed : (found ≡ ok none) ↔ ((e : Error) × (answer ≡ err e) × IsAbsent e)
    pub failed : ((f : Error) × (found ≡ err f)) ↔ (
        ((e : Error) × (answer ≡ err e) × (IsAbsent e → ⊥))
        ⊎ ((out : HeadOutput) × (f : Error) × (answer ≡ ok out)
            × (metadata_to_header j out.metadata ≡ err f)))
    pub hit : ((entry : CachedEntry) × (found ≡ ok (some entry))) ↔ (
        (out : HeadOutput) × (headers : Header) × (answer ≡ ok out)
        × (metadata_to_header j out.metadata ≡ ok headers))

  absent-IsLookup : (e : Error) → answer ≡ err e → IsAbsent e → IsLookup (ok none)
  absent-IsLookup e is absent = record {
    missed = (λ _. (e, is, absent), λ _. refl);
    failed = (
      λ t. absurd (let h = t.1 in cc),
      λ t. elim t [
        | inl (e', is', other) ↦ absurd (other (subst IsAbsent (cc) absent))
        | inr (out, f, is', _) ↦ absurd (cc)
      ],
    );
    hit = (λ t. absurd (let h = t.1 in cc), λ t. absurd (let h = t.2 in cc));
  }

  other-IsLookup : (e f : Error) → answer ≡ err e → (IsAbsent e → ⊥) → IsLookup (err f)
  other-IsLookup e f is other = record {
    missed = (λ h. absurd (cc), λ t. let is' = t.1 in absurd (other (subst IsAbsent (cc) t.2)));
    failed = (λ _. inl (e, is, other), λ _. (f, refl));
    hit = (λ t. absurd (let h = t.1 in cc), λ t. absurd (let h = t.2 in cc));
  }

  read-IsLookup :
      (out : HeadOutput) (headers : Result Header)
      → answer ≡ ok out
      → metadata_to_header j out.metadata ≡ headers
      → IsLookup (with_headers out headers)
  read-IsLookup out (err g) is read = record {
    missed = (λ h. absurd (cc), λ t. absurd (let h = t.1 in cc));
    failed = (λ _. inr (out, g, is, read), λ _. (g, refl));
    hit = (
      λ t. absurd (let h = t.1 in cc),
      λ t.
          let same : t.0 ≡ out = let h = t.2 in cc in
          let read' =
            subst (λ (o : HeadOutput). metadata_to_header j o.metadata ≡ ok t.1) same t.3 in
          absurd (cc),
    );
  }
  read-IsLookup out (ok headers) is read = record {
    missed = (λ h. absurd (cc), λ t. absurd (let h = t.1 in cc));
    failed = (
      λ t. absurd (let h = t.1 in cc),
      λ t. elim t [
        | inl (e', is', other) ↦ absurd (cc)
        | inr (out', f, is', unread) ↦
            let same : out' ≡ out = cc in
            let unread' =
              subst (λ (o : HeadOutput). metadata_to_header j o.metadata ≡ err f) same unread in
            absurd (cc)
      ],
    );
    hit = (λ _. (out, headers, is, read), λ _. (_, refl));
  }

  -- The three outcomes of a lookup. It says that nothing is cached exactly where the service answers
  -- with an API error whose code is NotFound or Forbidden, under any number of wrappers. It fails
  -- exactly where the service answers with any other error, or with metadata that cannot be read. It
  -- finds an entry exactly where the service answers with metadata that can be read.
  pub head-IsLookup : IsLookup (head api j c key s)
  unfolding head on_head
  head-IsLookup = go answer refl
    where
      go : (r : Result HeadOutput) → answer ≡ r → IsLookup (on_head api j c (place_of c key) r)
      go (ok out) is = read-IsLookup out (metadata_to_header j out.metadata) is refl
      go (err e) is = elim (Bool-cases (is_absent_code (api_error_code e))) [
        | inl gone ↦ rw gone (absent-IsLookup e is ((absent-IsAbsent e).0 gone))
        | inr there ↦
            rw there
              (other-IsLookup e _ is (λ a. let gone = (absent-IsAbsent e).1 a in absurd (cc)))
      ]
