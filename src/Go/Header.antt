-- ===== src/Go/Header.antt =====
-- What the program uses of http.Header: a map from names to lists of values, in which Get, Values,
-- Set, Add and Del go by the canonical form of the name.
use external_mirror_cache.Base.{
  ℕ, ◌≡◌, Bool, true, ◌||◌, List, [], ◌∷◌, ◌++◌, Option, none, some, Bytes, codes, ◌==◌, bytes_eq,
  nat_eq, if◌then◌else◌, all, any,
}
use external_mirror_cache.Base.Assoc.{lookup, insert, delete}
use external_mirror_cache.Go.Strings.{is_upper, is_lower, is_digit, lower, upper}

abbrev pub Header : Type 0
Header = List (Bytes × List Bytes)

abbrev pub is_token : ℕ → Bool
is_token c = is_upper c || is_lower c || is_digit c || any (λ p. c == p) (codes "!#$%&'*+-.^_`|~")

-- The flag says that a word begins here.
unfoldable pub canonical_case : Bool → Bytes → Bytes
canonical_case start [] = []
canonical_case start (c ∷ s) =
    let d = if start then upper c else lower c in d ∷ canonical_case (d == b'-') s

-- http.CanonicalHeaderKey: a name with a byte that is no token byte stays as it is.
unfoldable pub canonical_key : Bytes → Bytes
unfolding canonical_case
canonical_key s = if all is_token s then canonical_case true s else s

abbrev pub or_nil : Option (List Bytes) → List Bytes
or_nil none = []
or_nil (some vs) = vs

unfoldable pub values : Header → Bytes → List Bytes
unfolding canonical_key lookup
values h name = or_nil (lookup (canonical_key name) h)

abbrev pub first : List Bytes → Bytes
first [] = []
first (v ∷ vs) = v

unfoldable pub get : Header → Bytes → Bytes
unfolding values
get h name = first (values h name)

unfoldable pub set : Header → Bytes → Bytes → Header
unfolding canonical_key insert
set h name v = insert (canonical_key name) (v ∷ []) h

unfoldable pub add : Header → Bytes → Bytes → Header
unfolding canonical_key insert values
add h name v = insert (canonical_key name) (values h name ++ v ∷ []) h

unfoldable pub del : Header → Bytes → Header
unfolding canonical_key delete
del h name = delete (canonical_key name) h

-- Reading a nil header is reading an empty one.
abbrev pub or_empty : Option Header → Header
or_empty none = []
or_empty (some h) = h

-- A header as net/http delivers one: each name once, in canonical form.
abbrev pub IsCanonical : Header → Type 0
IsCanonical [] = Unit
IsCanonical ((name, vs) ∷ h) = (canonical_key name ≡ name) × (lookup name h ≡ none) × IsCanonical h
