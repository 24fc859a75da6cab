-- ===== src/Tests/Headers.antt =====
-- The freshness gate, the directives and the merge.
use external_mirror_cache.Base.{
  ◌*◌, ◌≡◌, ◌↔◌, refl, arith, true, false, List, [], ◌∷◌, some, Bytes, codes, bytes_beq, bytes_eq,
  if◌then◌else◌, leb, not, length,
}
use external_mirror_cache.Base.Int.{pos, ◌+ℤ◌, ◌-ℤ◌, add64, mul64}
use external_mirror_cache.Base.Assoc.{lookup, insert}
use external_mirror_cache.Go.Strings.{to_lower, equal_fold, trim_space, split, join, cut}
use external_mirror_cache.Go.Header.{values, canonical_key}
use external_mirror_cache.Freshness.Directives.{
  parse_delta_seconds, digits_loop, parse_age, split_quoted, split_quoted_from, directive_name,
  directive_arg, add_directive, add_directives, add_values, parse_once, parse_cache_control,
  zero_delta, second,
}
use external_mirror_cache.Freshness.Evaluate.{
  evaluate, declared_lifetime, judge, sub_time, is_zero_time, vary_satisfied, vary_name_ok,
}
use external_mirror_cache.Freshness.Merge.{merge, is_frozen}
use external_mirror_cache.Freshness.Exact.{elapsed}
use external_mirror_cache.Freshness.Delta.{decimal, is_delta, parse_delta_seconds-decimal}
use external_mirror_cache.Freshness.Gate.{
  IsFresh, evaluate-fresh_iff, evaluate-cap_zero, evaluate_antitone,
}
use external_mirror_cache.Freshness.Quoted.{split_quoted-join}
use external_mirror_cache.Freshness.Occurs.{directives_of, args_named, parse_cache_control-args}
use external_mirror_cache.Freshness.Precedence.{Grants, evaluate-Grants}
use external_mirror_cache.Freshness.Merged.{lookup-merge}
use external_mirror_cache.Tests.Fixture.{std, stored_headers, stored_at, soon, hour, not_modified}

abbrev pub accept_keys : List Bytes
accept_keys = codes "Accept" ∷ []

pub evaluate-soon : (evaluate std stored_headers stored_at soon hour accept_keys).fresh ≡ true
unfolding evaluate declared_lifetime judge sub_time is_zero_time vary_satisfied vary_name_ok values
    canonical_key lookup parse_cache_control split_quoted split_quoted_from add_directive
    directive_name directive_arg parse_once parse_delta_seconds digits_loop mul64 add64 ◌+ℤ◌ ◌-ℤ◌
    parse_age to_lower equal_fold trim_space split cut insert bytes_beq add_values add_directives
evaluate-soon = refl

split_quoted-quoted :
    split_quoted (codes "a, b=\"x,y\",c") ≡ codes "a" ∷ codes " b=\"x,y\"" ∷ codes "c" ∷ []
unfolding split_quoted split_quoted_from
split_quoted-quoted = refl

evaluate-fresh_iff_example :
    ((evaluate std stored_headers stored_at soon hour accept_keys).fresh ≡ true)
    ↔ IsFresh std stored_headers stored_at soon hour accept_keys
evaluate-fresh_iff_example =
    evaluate-fresh_iff std stored_headers stored_at soon hour accept_keys (omega arith)

evaluate-cap_zero_example :
    (evaluate std stored_headers stored_at soon (pos 0) accept_keys).fresh ≡ false
evaluate-cap_zero_example =
    evaluate-cap_zero std stored_headers stored_at soon (pos 0) accept_keys (omega arith)

evaluate_antitone_example :
    (evaluate std stored_headers stored_at (pos 2000) hour accept_keys).fresh ≡ true
evaluate_antitone_example =
    evaluate_antitone std stored_headers stored_at soon (pos 2000) hour accept_keys (omega arith)
      (omega arith) evaluate-soon

evaluate-Grants_example :
    Grants std
      (values stored_headers (codes "Cache-Control"))
      (elapsed soon stored_at +ℤ (parse_age (values stored_headers (codes "Age"))).0)
evaluate-Grants_example =
    evaluate-Grants std stored_headers stored_at soon hour accept_keys (omega arith) evaluate-soon

parse_delta_seconds-decimal_example : parse_delta_seconds (codes "0060") ≡ (
    if is_delta (codes "0060")
    then record { d = pos (decimal (codes "0060") 0 * second); ok = true; seen = false }
    else zero_delta)
parse_delta_seconds-decimal_example = parse_delta_seconds-decimal (codes "0060")

abbrev pieces : List Bytes
pieces = codes "a" ∷ codes " b=\"x,y\"" ∷ codes "c\"d" ∷ []

split_quoted-join_example : split_quoted (join (codes ",") pieces) ≡ pieces
split_quoted-join_example = split_quoted-join pieces (refl, refl, (refl, refl, refl))

abbrev two_values : List Bytes
two_values = codes "no-cache, Max-Age=\"5\"" ∷ codes "max-age=6" ∷ []

parse_cache_control-args_example : parse_cache_control std two_values ≡ record {
  no_cache = not (leb (length (args_named std (codes "no-cache") (directives_of two_values))) 0);
  s_max_age = parse_once (args_named std (codes "s-maxage") (directives_of two_values));
  max_age = parse_once (args_named std (codes "max-age") (directives_of two_values));
}
parse_cache_control-args_example = parse_cache_control-args std two_values

lookup-merge_example :
    lookup (codes "Cache-Control") (merge (some stored_headers) not_modified.header)
    ≡ some (codes "max-age=90" ∷ [])
unfolding lookup is_frozen bytes_beq
lookup-merge_example =
    lookup-merge (some stored_headers) not_modified.header (codes "Cache-Control")
      (unfold canonical_key in (refl, refl, tt))
