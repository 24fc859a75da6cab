-- ===== src/Go/Strings.antt =====
-- What the program uses of Go's package strings, on bytes. `Std` holds what is left abstract of
-- the standard library: texts with a byte above 0x7F in the functions that follow Unicode, and the
-- reading of HTTP dates.
use mathlib.Core.List.{reverse}
use external_mirror_cache.Base.{
  ℕ, ◌+◌, ◌-◌, Bool, true, false, ◌&&◌, ◌||◌, List, [], ◌∷◌, ◌++◌, map, Option, Bytes, ltb, within,
  ◌==◌, bytes_eq, nat_eq, if◌then◌else◌, all, length, drop,
}
use external_mirror_cache.Base.Int.{ℤ}

pub record Std : Type 0 where
  -- strings.ToLower, TrimSpace and EqualFold where an argument is not ASCII
  pub unicode_lower : Bytes → Bytes
  pub unicode_trim : Bytes → Bytes
  pub unicode_fold : Bytes → Bytes → Bool
  -- http.ParseTime, in nanoseconds since the zero time; `none` is its error
  pub parse_time : Bytes → Option ℤ

abbrev pub is_ascii : Bytes → Bool
is_ascii = all (λ c. ltb c 128)

abbrev pub is_upper : ℕ → Bool
is_upper c = within b'A' b'Z' c

abbrev pub is_lower : ℕ → Bool
is_lower c = within b'a' b'z' c

abbrev pub is_digit : ℕ → Bool
is_digit c = within b'0' b'9' c

abbrev pub lower : ℕ → ℕ
lower c = if is_upper c then c + 32 else c

abbrev pub upper : ℕ → ℕ
upper c = if is_lower c then c - 32 else c

unfoldable pub to_lower : Std → Bytes → Bytes
to_lower g s = if is_ascii s then map lower s else g.unicode_lower s

unfoldable pub equal_fold : Std → Bytes → Bytes → Bool
equal_fold g s t =
    if is_ascii s && is_ascii t then map lower s == map lower t else g.unicode_fold s t

abbrev pub is_space : ℕ → Bool
is_space c = within 9 13 c || c == b' '

abbrev pub trim_left : Bytes → Bytes
trim_left [] = []
trim_left (c ∷ s) = let rest = trim_left s in if is_space c then rest else c ∷ s

abbrev pub trim_ascii : Bytes → Bytes
trim_ascii s = reverse (trim_left (reverse (trim_left s)))

unfoldable pub trim_space : Std → Bytes → Bytes
trim_space g s = if is_ascii s then trim_ascii s else g.unicode_trim s

unfoldable pub has_prefix : Bytes → Bytes → Bool
has_prefix s [] = true
has_prefix [] (p ∷ ps) = false
has_prefix (c ∷ s) (p ∷ ps) = c == p && has_prefix s ps

unfoldable pub has_suffix : Bytes → Bytes → Bool
unfolding has_prefix
has_suffix s p = has_prefix (reverse s) (reverse p)

unfoldable pub trim_prefix : Bytes → Bytes → Bytes
unfolding has_prefix
trim_prefix s p = if has_prefix s p then drop (length p) s else s

-- strings.Cut at one byte: what is before it, what is after it, and whether it was found.
unfoldable pub cut : ℕ → Bytes → Bytes × Bytes × Bool
cut sep [] = ([], [], false)
cut sep (c ∷ s) =
    let (before, after, found) = cut sep s in
    if c == sep then ([], s, true) else (c ∷ before, after, found)

-- A piece gets one more byte in front.
abbrev pub prepend : ℕ → List Bytes → List Bytes
prepend c [] = (c ∷ []) ∷ []
prepend c (p ∷ ps) = (c ∷ p) ∷ ps

-- strings.Split and strings.SplitSeq at one byte.
unfoldable pub split : ℕ → Bytes → List Bytes
split sep [] = [] ∷ []
split sep (c ∷ s) = let rest = split sep s in if c == sep then [] ∷ rest else prepend c rest

-- strings.Join
unfoldable pub join : Bytes → List Bytes → Bytes
join sep [] = []
join sep (p ∷ []) = p
join sep (p ∷ q ∷ ps) = p ++ (sep ++ join sep (q ∷ ps))
