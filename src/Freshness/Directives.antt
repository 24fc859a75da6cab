-- ===== src/Freshness/Directives.antt =====
-- internal/freshness/freshness.go: `parseCacheControl`, `splitQuoted`, `parseDeltaSeconds` and
-- `parseAge`. Durations are int64 nanoseconds, as integers; arithmetic wraps by `add64`, `mul64`.
use external_mirror_cache.Base.{
  ℕ, ◌-◌, Bool, true, false, not, ◌&&◌, ◌||◌, List, [], ◌∷◌, ◌++◌, Option, none, some, Bytes, codes,
  ltb, leb, ◌==◌, bytes_eq, nat_eq, if◌then◌else◌, length,
}
use external_mirror_cache.Base.Int.{ℤ, pos, ltb_ℤ, add64, mul64}
use external_mirror_cache.Base.Assoc.{lookup, insert}
use external_mirror_cache.Go.Strings.{Std, cut, to_lower, trim_space}
use external_mirror_cache.Go.Header.{or_nil}

pub record DeltaSeconds : Type 0 where
  pub d : ℤ
  pub ok : Bool
  pub seen : Bool

pub record CcDirectives : Type 0 where
  pub no_cache : Bool
  pub s_max_age : DeltaSeconds
  pub max_age : DeltaSeconds

abbrev pub zero_delta : DeltaSeconds
zero_delta = record { d = pos 0; ok = false; seen = false }

-- math.MaxInt64 / int64(time.Second) / 2
abbrev pub max_delta : ℕ
max_delta = 4611686018

abbrev pub second : ℕ
second = 1000000000

-- The loop over the digits; `none` is the early return at a byte that is no digit.
unfoldable pub digits_loop : Bytes → ℤ → Option ℤ
digits_loop [] secs = some secs
digits_loop (c ∷ s) secs =
    let rest = digits_loop s (add64 (mul64 secs (pos 10)) (pos (c - b'0'))) in
    if ltb c b'0' || ltb b'9' c then none else rest

abbrev pub scaled : Option ℤ → DeltaSeconds
scaled none = zero_delta
scaled (some secs) =
    if ltb_ℤ (pos max_delta) secs
    then zero_delta
    else record { d = mul64 secs (pos second); ok = true; seen = false }

unfoldable pub parse_delta_seconds : Bytes → DeltaSeconds
unfolding digits_loop
parse_delta_seconds s =
    if s == [] || ltb 18 (length s) then zero_delta else scaled (digits_loop s (pos 0))

-- `Age`: the value and whether it is valid.
unfoldable pub parse_age : List Bytes → ℤ × Bool
unfolding parse_delta_seconds
parse_age [] = (pos 0, true)
parse_age (v ∷ []) = let age = parse_delta_seconds v in (age.d, age.ok)
parse_age (v ∷ w ∷ vs) = (pos 0, false)

-- The loop of splitQuoted: `piece` is s[start:i], the flag is `inQuotes`.
unfoldable pub split_quoted_from : Bytes → Bool → Bytes → List Bytes
split_quoted_from piece in_quotes [] = piece ∷ []
split_quoted_from piece in_quotes (c ∷ s) =
    let cut_here = piece ∷ split_quoted_from [] in_quotes s in
    let go_on =
      split_quoted_from (piece ++ c ∷ []) (if c == b'"' then not in_quotes else in_quotes) s in
    if c == b',' && not in_quotes then cut_here else go_on

unfoldable pub split_quoted : Bytes → List Bytes
unfolding split_quoted_from
split_quoted s = split_quoted_from [] false s

abbrev pub Occurrences : Type 0
Occurrences = List (Bytes × List Bytes)

-- The name and the argument of one directive.
unfoldable pub directive_name : Std → Bytes → Bytes
directive_name g directive = to_lower g (trim_space g (cut b'=' directive).0)

unfoldable pub directive_arg : Std → Bytes → Bytes
directive_arg g directive = trim_space g (cut b'=' directive).1

unfoldable pub add_directive : Std → Occurrences → Bytes → Occurrences
add_directive g occ directive =
    let name = directive_name g directive in
    if name == []
    then occ
    else insert name (or_nil (lookup name occ) ++ directive_arg g directive ∷ []) occ

unfoldable pub add_directives : Std → Occurrences → List Bytes → Occurrences
add_directives g occ [] = occ
add_directives g occ (directive ∷ ds) = add_directives g (add_directive g occ directive) ds

unfoldable pub add_values : Std → Occurrences → List Bytes → Occurrences
add_values g occ [] = occ
add_values g occ (value ∷ vs) = add_values g (add_directives g occ (split_quoted value)) vs

unfoldable pub parse_once : List Bytes → DeltaSeconds
unfolding parse_delta_seconds
parse_once [] = zero_delta
parse_once (arg ∷ []) = record (parse_delta_seconds arg) { seen = true }
parse_once (a ∷ b ∷ args) = record zero_delta { seen = true }

unfoldable pub parse_cache_control : Std → List Bytes → CcDirectives
parse_cache_control g vs =
    let occurrences = add_values g [] vs in
    record {
      no_cache = not (leb (length (or_nil (lookup (codes "no-cache") occurrences))) 0);
      s_max_age = parse_once (or_nil (lookup (codes "s-maxage") occurrences));
      max_age = parse_once (or_nil (lookup (codes "max-age") occurrences));
    }
