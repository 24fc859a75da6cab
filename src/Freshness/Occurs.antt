-- ===== src/Freshness/Occurs.antt =====
-- The occurrences that `parseCacheControl` counts, against the list of all directives.
use external_mirror_cache.Base.{
  ◌≡◌, ◌≢◌, refl, sym, ap, ◌∙◌, arith, List, [], ◌∷◌, ◌++◌, Bytes, codes, ◌==◌, bytes_eq,
  bytes_beq_iff, if◌then◌else◌, append_assoc, append-nil, length, leb, not,
}
use external_mirror_cache.Base.Assoc.{lookup, lookup-insert}
use external_mirror_cache.Go.Strings.{Std}
use external_mirror_cache.Go.Header.{or_nil}
use external_mirror_cache.Freshness.Directives.{
  split_quoted, Occurrences, directive_name, directive_arg, add_directive, add_directives,
  add_values, parse_once, parse_cache_control,
}

-- The directives of all the values, in order.
abbrev pub directives_of : List Bytes → List Bytes
directives_of [] = []
directives_of (value ∷ vs) = split_quoted value ++ directives_of vs

-- The arguments of the directives with one name, in order.
abbrev pub args_named : Std → Bytes → List Bytes → List Bytes
args_named g name [] = []
args_named g name (d ∷ ds) =
    let rest = args_named g name ds in
    if directive_name g d == name then directive_arg g d ∷ rest else rest

args_named-append :
    (g : Std) (name : Bytes) (ds es : List Bytes)
    → args_named g name (ds ++ es) ≡ args_named g name ds ++ args_named g name es
args_named-append g name [] es = refl
args_named-append g name (d ∷ ds) es = ground (arith, args_named-append g name ds es)

module _ (g : Std) (name : Bytes) (named : name ≢ []) where
  abbrev seen_in : Occurrences → List Bytes
  seen_in occ = or_nil (lookup name occ)

  add_directive-args :
      (occ : Occurrences) (d : Bytes)
      → seen_in (add_directive g occ d) ≡ seen_in occ ++ args_named g name (d ∷ [])
  unfolding add_directive
  add_directive-args occ d =
      let own = directive_name g d in
      ground (
        arith,
        bytes_beq_iff own name,
        bytes_beq_iff own [],
        lookup-insert own name (or_nil (lookup own occ) ++ directive_arg g d ∷ []) occ,
        append-nil (seen_in occ),
      )

  add_directives-args :
      (ds : List Bytes) (occ : Occurrences)
      → seen_in (add_directives g occ ds) ≡ seen_in occ ++ args_named g name ds
  unfolding add_directives
  add_directives-args [] occ = rw append-nil
  add_directives-args (d ∷ ds) occ =
      add_directives-args ds (add_directive g occ d)
      ∙ rw (add_directive-args occ d) (
          append_assoc (seen_in occ) (args_named g name (d ∷ [])) (args_named g name ds)
          ∙ ap (λ more. seen_in occ ++ more) (sym (args_named-append g name (d ∷ []) ds)))

  add_values-args :
      (vs : List Bytes) (occ : Occurrences)
      → seen_in (add_values g occ vs) ≡ seen_in occ ++ args_named g name (directives_of vs)
  unfolding add_values
  add_values-args [] occ = rw append-nil
  add_values-args (v ∷ vs) occ =
      add_values-args vs (add_directives g occ (split_quoted v))
      ∙ rw (add_directives-args (split_quoted v) occ) (
          append_assoc (seen_in occ) (args_named g name (split_quoted v))
            (args_named g name (directives_of vs))
          ∙ ap (λ more. seen_in occ ++ more)
              (sym (args_named-append g name (split_quoted v) (directives_of vs))))

-- The directives are read as if all values were one list, each by the arguments of its name.
pub parse_cache_control-args :
    (g : Std) (vs : List Bytes)
    → parse_cache_control g vs ≡ record {
      no_cache = not (leb (length (args_named g (codes "no-cache") (directives_of vs))) 0);
      s_max_age = parse_once (args_named g (codes "s-maxage") (directives_of vs));
      max_age = parse_once (args_named g (codes "max-age") (directives_of vs));
    }
unfolding parse_cache_control lookup
parse_cache_control-args g vs = rw (
  add_values-args g (codes "no-cache") (cc) vs [],
  add_values-args g (codes "s-maxage") (cc) vs [],
  add_values-args g (codes "max-age") (cc) vs [],
)
