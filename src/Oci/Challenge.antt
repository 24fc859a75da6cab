-- ===== src/Oci/Challenge.antt =====
-- oci_auth.go: `parseOCIAuthChallenge`, `parseAuthChallengeParams` and `splitAuthParams`.
use external_mirror_cache.Base.{
  ℕ, Bool, true, false, not, ◌&&◌, ◌||◌, List, [], ◌∷◌, ◌++◌, Option, none, some, Bytes, codes, ltb,
  leb, length, take, drop, Eq, ◌==◌, nat_eq, bytes_eq, bytes_beq_iff, if◌then◌else◌, ◌≡◌, ◌↔◌,
  arith,
}
use external_mirror_cache.Base.Assoc.{lookup, insert}
use external_mirror_cache.Go.Strings.{Std, trim_space, equal_fold, to_lower, cut}
use external_mirror_cache.Go.Header.{Header, values}

pub record Challenge : Type 0 where
  pub realm : Bytes
  pub service : Bytes
  pub scope : Bytes

abbrev pub challenge_beq : Challenge → Challenge → Bool
challenge_beq a b = a.realm == b.realm && a.service == b.service && a.scope == b.scope

pub challenge_beq_iff : (a b : Challenge) → (challenge_beq a b ≡ true) ↔ (a ≡ b)
challenge_beq_iff a b = ground (
  arith,
  bytes_beq_iff a.realm b.realm,
  bytes_beq_iff a.service b.service,
  bytes_beq_iff a.scope b.scope,
)

-- The comparable struct as a map key.
instance abbrev pub challenge_eq : Eq Challenge
challenge_eq = record { test = challenge_beq; test_iff = challenge_beq_iff }

-- `parts`, after the loop: what is left in `current`, if anything.
abbrev last_part : Bytes → List Bytes
last_part [] = []
last_part (c ∷ s) = (c ∷ s) ∷ []

unfoldable pub split_auth_from : Bytes → Bool → Bool → Bytes → List Bytes
split_auth_from current in_quotes escaped [] = last_part current
split_auth_from current in_quotes escaped (c ∷ s) =
    let more = current ++ c ∷ [] in
    let literal = split_auth_from more in_quotes false s in
    let escape = split_auth_from more in_quotes true s in
    let quote = split_auth_from more (not in_quotes) false s in
    let part = current ∷ split_auth_from [] in_quotes false s in
    if escaped
    then literal
    else if c == b'\\'
    then escape
    else if c == b'"'
    then quote
    else if c == b',' && not in_quotes
    then part
    else literal

unfoldable pub split_auth_params : Bytes → List Bytes
split_auth_params params = split_auth_from [] false false params

-- strings.ReplaceAll(value, `\"`, `"`)
abbrev pub unescape_quotes : Bytes → Bytes
unescape_quotes [] = []
unescape_quotes (c ∷ []) = c ∷ []
unescape_quotes (c ∷ d ∷ s) =
    let escaped = b'"' ∷ unescape_quotes s in
    let literal = c ∷ unescape_quotes (d ∷ s) in
    if c == b'\\' && d == b'"' then escaped else literal

abbrev pub drop_last : Bytes → Bytes
drop_last [] = []
drop_last (c ∷ []) = []
drop_last (c ∷ d ∷ s) = c ∷ drop_last (d ∷ s)

abbrev pub last : Bytes → Option ℕ
last [] = none
last (c ∷ []) = some c
last (c ∷ d ∷ s) = last (d ∷ s)

abbrev is_quote : Option ℕ → Bool
is_quote none = false
is_quote (some c) = c == b'"'

abbrev head : Bytes → Option ℕ
head [] = none
head (c ∷ s) = some c

unfoldable pub unquote : Bytes → Bytes
unquote value =
    if leb 2 (length value) && is_quote (head value) && is_quote (last value)
    then unescape_quotes (drop_last (drop 1 value))
    else value

abbrev pub Params : Type 0
Params = List (Bytes × Bytes)

unfoldable pub add_param : Std → Params → Bytes → Params
add_param g params raw =
    let part = trim_space g raw in
    let (before, after, found) = cut b'=' part in
    if part == [] || not found
    then params
    else insert (to_lower g (trim_space g before)) (unquote (trim_space g after)) params

unfoldable pub add_params : Std → Params → List Bytes → Params
add_params g params [] = params
add_params g params (part ∷ parts) = add_params g (add_param g params part) parts

unfoldable pub parse_auth_challenge_params : Std → Bytes → Params
parse_auth_challenge_params g params = add_params g [] (split_auth_params params)

abbrev space_or_tab : Bytes → Bool
space_or_tab [] = true
space_or_tab (c ∷ s) = c == b' ' || c == b'\t'

-- What follows the Bearer scheme in a header; `none` is `continue`.
unfoldable pub bearer_remainder : Std → Bytes → Option Bytes
bearer_remainder g raw =
    let header = trim_space g raw in
    if ltb (length header) 6
    then none
    else if not (equal_fold g (take 6 header) (codes "Bearer"))
    then none
    else if not (space_or_tab (drop 6 header))
    then none
    else some (trim_space g (drop 6 header))

abbrev or_blank : Option Bytes → Bytes
or_blank none = []
or_blank (some v) = v

-- A challenge needs a realm; service and scope may be missing.
unfoldable pub challenge_of : Params → Option Challenge
challenge_of params = elim (lookup (codes "realm") params) [
  | none ↦ none
  | some realm ↦ some (record {
    realm = realm;
    service = or_blank (lookup (codes "service") params);
    scope = or_blank (lookup (codes "scope") params);
  })
]

-- The loop over the headers: the first Bearer header decides.
unfoldable pub first_challenge : Std → List Bytes → Option Challenge
first_challenge g [] = none
first_challenge g (header ∷ headers) =
    let rest = first_challenge g headers in
    elim (bearer_remainder g header) [
      | none ↦ rest
      | some remainder ↦ challenge_of (parse_auth_challenge_params g remainder)
    ]

unfoldable pub parse_oci_auth_challenge : Std → ℕ → Header → Option Challenge
parse_oci_auth_challenge g status header =
    if not (status == 401)
    then none
    else first_challenge g (values header (codes "WWW-Authenticate"))
