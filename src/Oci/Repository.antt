-- ===== src/Oci/Repository.antt =====
-- oci_auth.go: `extractOCIRepository` and `challengeKey`.
use external_mirror_cache.Base.{
  ℕ, suc, not, [], ◌∷◌, ◌++◌, Option, none, some, Bytes, codes, ltb, take, drop, ◌==◌, bytes_eq,
  if◌then◌else◌,
}
use external_mirror_cache.Go.Strings.{has_prefix}

-- strings.LastIndex; `none` is -1.
unfoldable pub last_index : Bytes → Bytes → Option ℕ
last_index p [] = if p == [] then some 0 else none
last_index p (c ∷ s) = elim (last_index p s) [
  | none ↦ if has_prefix (c ∷ s) p then some 0 else none
  | some i ↦ some (suc i)
]

-- `if idx > lastActionIdx { lastActionIdx = idx }`
abbrev pub later : Option ℕ → Option ℕ → Option ℕ
later o none = o
later none (some i) = some i
later (some j) (some i) = if ltb j i then some i else some j

unfoldable pub last_action : Bytes → Option ℕ
last_action remainder =
    later
      (later (later none (last_index (codes "/manifests/") remainder))
        (last_index (codes "/blobs/") remainder))
      (last_index (codes "/tags/") remainder)

abbrev pub repo_at : Bytes → Bytes → Option ℕ → Option (Bytes × Bytes)
repo_at host remainder none = none
repo_at host remainder (some i) =
    let repo = take i remainder in if repo == [] then none else some (host, repo)

-- The host and the repository.
unfoldable pub extract_oci_repository : Bytes → Bytes → Option (Bytes × Bytes)
extract_oci_repository host path =
    if not (has_prefix path (codes "/v2/"))
    then none
    else let remainder = drop 4 path in
      if remainder == [] then none else repo_at host remainder (last_action remainder)

unfoldable pub challenge_key : Bytes → Bytes → Bytes
challenge_key host repo = (host ++ codes "/") ++ repo
