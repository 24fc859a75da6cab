-- ===== src/Server/Touch.antt =====
-- What `maybeTouch` writes.
use external_mirror_cache.Base.{
  ◌≡◌, ◌≢◌, refl, sym, arith, true, false, not, List, [], ◌∷◌, Bytes, codes, Option, none, some,
  Bool-cases, inl, inr, ◌⊎◌, ◌==◌, bytes_eq, bytes_beq, bytes_beq_iff, ◌&&◌, ap,
}
use external_mirror_cache.Base.Assoc.{lookup}
use external_mirror_cache.Go.Header.{
  Header, IsCanonical, canonical_key, get, values, or_empty, or_nil, first,
}
use external_mirror_cache.Cache.{CacheKey, CachedEntry}
use external_mirror_cache.Freshness.Evaluate.{Time, evaluate}
use external_mirror_cache.Freshness.Merge.{merge}
use external_mirror_cache.Freshness.Merged.{or_else, values-merge-etag}
use external_mirror_cache.Server.World.{Services, History, touched, clock}
use external_mirror_cache.Server.Validators.{etag_strong_match}
use external_mirror_cache.Server.Fetch.{Middleware, touch_if_fresh, maybe_touch}

abbrev pub etag : Header → Bytes
etag h = get h (codes "ETag")

etag_strong_match-eq : (a b : Bytes) → etag_strong_match a b ≡ true → a ≡ b
unfolding etag_strong_match
etag_strong_match-eq a b h = ground (arith, bytes_beq_iff a b)

-- The stored field and the response's field: `o` is the response's.
field_keeps :
    (o p : Option (List Bytes))
    → (first (or_nil o) ≡ []) ⊎ (etag_strong_match (first (or_nil p)) (first (or_nil o)) ≡ true)
    → (first (or_nil (or_else o p)) ≡ first (or_nil p))
      ⊎ (((o ≢ none) × (first (or_nil o) ≡ [])) × (first (or_nil (or_else o p)) ≡ []))
field_keeps none p ok = inl refl
field_keeps (some vs) p (inl none_named) = inr ((λ e. cc, none_named), none_named)
field_keeps (some vs) p (inr strong) = inl (sym (etag_strong_match-eq _ _ strong))

-- An ETag field of a response whose first value is empty.
abbrev pub EmptyEtag : Header → Type 0
EmptyEtag h = (lookup (codes "Etag") h ≢ none) × (etag h ≡ [])

etag-lookup : (h : Header) → etag h ≡ first (or_nil (lookup (codes "Etag") h))
unfolding get values canonical_key
etag-lookup h = refl

etag-merge :
    (stored : Option Header) (validating : Header)
    → IsCanonical validating
    → etag (merge stored validating)
      ≡ first (
          or_nil
            (or_else (lookup (codes "Etag") validating) (lookup (codes "Etag") (or_empty stored))))
unfolding get
etag-merge stored validating c = ap first (values-merge-etag stored validating c)

guard_passes :
    (cached vet : Bytes)
    → (not (vet == []) && not (etag_strong_match cached vet)) ≡ false
    → (vet ≡ []) ⊎ (etag_strong_match cached vet ≡ true)
guard_passes cached [] h = inl refl
guard_passes cached (c ∷ vet) h = inr (unfold bytes_beq in ground arith)

-- The ETag of the merged headers, under the guard of `maybeTouch`.
merge_keeps_etag :
    (stored : Option Header) (validating : Header)
    → IsCanonical validating
    → (etag validating ≡ []) ⊎ (etag_strong_match (etag (or_empty stored)) (etag validating) ≡ true)
    → (etag (merge stored validating) ≡ etag (or_empty stored))
      ⊎ (EmptyEtag validating × (etag (merge stored validating) ≡ []))
merge_keeps_etag stored validating c =
    rw (etag-merge stored validating c, etag-lookup validating, etag-lookup (or_empty stored))
      (field_keeps (lookup (codes "Etag") validating) (lookup (codes "Etag") (or_empty stored)))

module _ (svc : Services) (m : Middleware) (key : CacheKey) (entry : CachedEntry)
    (validating : Header) (key_headers : List Bytes) where
  abbrev merged : Header
  merged = merge entry.headers validating

  -- A touch that was made, at the history that it was made from.
  pub record IsTouch (h : History) : Type 0 where
    pub honored : m.honor_freshness ≡ true
    pub keeps_etag :
        (etag merged ≡ etag (or_empty entry.headers)) ⊎ (EmptyEtag validating × (etag merged ≡ []))
    pub will_be_fresh :
        let now : Time = svc.time_now h in
        (evaluate svc.std merged now now m.freshness_cap key_headers).fresh ≡ true

  touch_if_fresh-IsTouch :
      (h : History)
      → m.honor_freshness ≡ true
      → (etag merged ≡ etag (or_empty entry.headers)) ⊎ (EmptyEtag validating × (etag merged ≡ []))
      → let done : History = (touch_if_fresh svc m key entry validating key_headers h).1 in
        (done ≡ clock ∷ h) ⊎ ((done ≡ touched key entry merged ∷ clock ∷ h) × IsTouch h)
  unfolding touch_if_fresh
  touch_if_fresh-IsTouch h on keeps =
      let now = svc.time_now h in
      elim (Bool-cases (evaluate svc.std merged now now m.freshness_cap key_headers).fresh) [
        | inl is_fresh ↦
            rw is_fresh
              (inr (refl, record { honored = on; keeps_etag = keeps; will_be_fresh = is_fresh }))
        | inr not_fresh ↦ rw not_fresh (inl refl)
      ]

  -- For a response whose field names are canonical and distinct, `maybeTouch` does nothing, or
  -- reads the clock, or reads the clock and then touches the entry once, with the merged
  -- headers. It touches only where freshness is honored and the merged headers are fresh at that
  -- instant, and it leaves the stored ETag as it is, unless the response has an ETag field whose
  -- first value is empty: that erases it.
  pub maybe_touch-IsTouch :
      (h : History)
      → IsCanonical validating
      → let done : History = (maybe_touch svc m key (some entry) validating key_headers h).1 in
        (done ≡ h)
        ⊎ (done ≡ clock ∷ h)
        ⊎ ((done ≡ touched key entry merged ∷ clock ∷ h) × IsTouch h)
  unfolding maybe_touch
  maybe_touch-IsTouch h c =
      let guard =
        not (etag validating == [])
        && not (etag_strong_match (etag (or_empty entry.headers)) (etag validating)) in
      elim (Bool-cases m.honor_freshness) [
        | inr off ↦ simp off (inl refl)
        | inl on ↦ elim (Bool-cases guard) [
          | inl refused ↦ simp (on, refused) (inl refl)
          | inr passes ↦
              simp (on, passes)
                (inr (
                  touch_if_fresh-IsTouch h on (
                    merge_keeps_etag entry.headers validating c
                      (guard_passes (etag (or_empty entry.headers)) (etag validating) passes))))
        ]
      ]
