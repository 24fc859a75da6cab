-- ===== src/Oci/Paths.antt =====
-- What `extractOCIRepository` finds in a path.
use external_mirror_cache.Base.{
  ℕ, suc, ◌≡◌, ◌≢◌, ◌⊎◌, inl, inr, refl, arith, ap, sym, subst, true, [], ◌∷◌, ◌++◌, Option, none,
  some, Bytes, codes, take, drop, ◌==◌, bytes_eq, bytes_beq_iff, Bool-cases, Option-cases,
}
use external_mirror_cache.Go.Strings.{has_prefix}
use external_mirror_cache.Oci.Repository.{
  last_index, later, last_action, extract_oci_repository, repo_at,
}

has_prefix-drop : (s p : Bytes) → has_prefix s p ≡ true → (t : Bytes) × (s ≡ p ++ t)
unfolding has_prefix
has_prefix-drop s [] h = (s, refl)
has_prefix-drop [] (c ∷ p) h = absurd (cc)
has_prefix-drop (d ∷ s) (c ∷ p) h =
    let (t, e) = has_prefix-drop s p (ground arith) in (t, ground arith)

-- The text stands at the index.
abbrev pub IsAt : Bytes → Bytes → ℕ → Type 0
IsAt p s i = (t : Bytes) × (s ≡ take i s ++ (p ++ t))

last_index-IsAt : (p s : Bytes) (i : ℕ) → last_index p s ≡ some i → IsAt p s i
unfolding last_index
last_index-IsAt p [] i h = elim (Bool-cases (p == [])) [
  | inl e ↦
      let first : 0 ≡ i = ground arith in
      subst (IsAt p []) first ([], sym (ap (λ q. q ++ []) ((bytes_beq_iff p []).0 e)))
  | inr e ↦ absurd (ground arith)
]
last_index-IsAt p (c ∷ s) i h = elim (Option-cases (last_index p s)) [
  | inl e ↦ elim (Bool-cases (has_prefix (c ∷ s) p)) [
    | inl here ↦
        let first : 0 ≡ i = ground arith in
        subst (IsAt p (c ∷ s)) first (has_prefix-drop (c ∷ s) p here)
    | inr other ↦ absurd (ground arith)
  ]
  | inr (j, e) ↦
      let (t, f) = last_index-IsAt p s j e in
      let next : suc j ≡ i = ground arith in subst (IsAt p (c ∷ s)) next (t, ap (◌∷◌ c) f)
]

-- One of the three actions stands at the index.
pub data IsAction (s : Bytes) (i : ℕ) : Type 0 where
  manifests : IsAt (codes "/manifests/") s i → IsAction s i
  blobs : IsAt (codes "/blobs/") s i → IsAction s i
  tags : IsAt (codes "/tags/") s i → IsAction s i

later-either : (o p : Option ℕ) (i : ℕ) → later o p ≡ some i → (o ≡ some i) ⊎ (p ≡ some i)
later-either o none i h = inl h
later-either none (some j) i h = inr h
later-either (some k) (some j) i h = ground arith

last_action-IsAction : (s : Bytes) (i : ℕ) → last_action s ≡ some i → IsAction s i
unfolding last_action
last_action-IsAction s i h =
    let m = last_index (codes "/manifests/") s in
    let b = last_index (codes "/blobs/") s in
    let t = last_index (codes "/tags/") s in
    elim (later-either (later (later none m) b) t i h) [
      | inr e ↦ tags (last_index-IsAt (codes "/tags/") s i e)
      | inl h' ↦ elim (later-either (later none m) b i h') [
        | inr e ↦ blobs (last_index-IsAt (codes "/blobs/") s i e)
        | inl h'' ↦ elim (later-either none m i h'') [
          | inr e ↦ manifests (last_index-IsAt (codes "/manifests/") s i e)
          | inl e ↦ absurd (cc)
        ]
      ]
    ]

-- A path of the API: the prefix, a repository, and one of the three actions behind it.
pub record IsRepository (path repo : Bytes) : Type 0 where
  pub rest : Bytes
  pub is_path : path ≡ codes "/v2/" ++ rest
  pub at : ℕ
  pub action : IsAction rest at
  pub is_repo : repo ≡ take at rest
  pub named : repo ≢ []

in_remainder :
    (host rest path h repo : Bytes) (found : Option ℕ)
    → path ≡ codes "/v2/" ++ rest
    → last_action rest ≡ found
    → repo_at host rest found ≡ some (h, repo)
    → (h ≡ host) × IsRepository path repo
in_remainder host rest path h repo none p e f = absurd (cc)
in_remainder host rest path h repo (some i) p e f = elim (Bool-cases (take i rest == [])) [
  | inl blank ↦ absurd (ground arith)
  | inr named ↦ (
    ground arith,
    record {
      rest = rest;
      is_path = p;
      at = i;
      action = last_action-IsAction rest i e;
      is_repo = ground arith;
      named = λ z. ground (arith, bytes_beq_iff (take i rest) []);
    },
  )
]

-- A repository that is found in a path is not empty and stands between the prefix of the API and
-- one of the three actions; the host found is the request's.
pub extract_oci_repository-IsRepository :
    (host path h repo : Bytes)
    → extract_oci_repository host path ≡ some (h, repo)
    → (h ≡ host) × IsRepository path repo
unfolding extract_oci_repository
extract_oci_repository-IsRepository host path h repo e =
    elim (Bool-cases (has_prefix path (codes "/v2/"))) [
      | inr other ↦ absurd (ground arith)
      | inl api ↦
          let (rest, p) = has_prefix-drop path (codes "/v2/") api in
          let dropped : drop 4 path ≡ rest = ap (drop 4) p in
          elim (Bool-cases (rest == [])) [
            | inl blank ↦ let f = simp (api, dropped, blank) at e in absurd (cc)
            | inr more ↦
                in_remainder host rest path h repo (last_action rest) p refl
                  (simp (api, dropped, more) at e)
          ]
    ]
