-- ===== src/Go/Canonical.antt =====
-- The canonical form of header names, and headers whose names are canonical and distinct.
use external_mirror_cache.Base.{
  ℕ, ◌≡◌, refl, arith, Bool, true, false, List, [], ◌∷◌, Bytes, ◌==◌, nat_eq, bytes_eq,
  bytes_beq_iff, Bool-cases, inl, inr, all,
}
use external_mirror_cache.Base.Assoc.{lookup, insert, delete, lookup-insert, lookup-delete}
use external_mirror_cache.Go.Strings.{lower, upper}
use external_mirror_cache.Go.Header.{
  Header, is_token, canonical_case, canonical_key, IsCanonical, add, del,
}

pub is_token-lower : (c : ℕ) → is_token (lower c) ≡ is_token c
is_token-lower c = ground arith

pub is_token-upper : (c : ℕ) → is_token (upper c) ≡ is_token c
is_token-upper c = ground arith

pub lower-lower : (c : ℕ) → lower (lower c) ≡ lower c
lower-lower c = ground arith

pub upper-upper : (c : ℕ) → upper (upper c) ≡ upper c
upper-upper c = ground arith

canonical_case_twice :
    (b : Bool) (s : Bytes) → canonical_case b (canonical_case b s) ≡ canonical_case b s
unfolding canonical_case
canonical_case_twice b [] = refl
canonical_case_twice true (c ∷ s) =
    rw (upper-upper c, canonical_case_twice (upper c == b'-') s) refl
canonical_case_twice false (c ∷ s) =
    rw (lower-lower c, canonical_case_twice (lower c == b'-') s) refl

all-token-canonical : (b : Bool) (s : Bytes) → all is_token (canonical_case b s) ≡ all is_token s
unfolding canonical_case
all-token-canonical b [] = refl
all-token-canonical true (c ∷ s) =
    rw (is_token-upper c, all-token-canonical (upper c == b'-') s) refl
all-token-canonical false (c ∷ s) =
    rw (is_token-lower c, all-token-canonical (lower c == b'-') s) refl

pub canonical_key_twice : (s : Bytes) → canonical_key (canonical_key s) ≡ canonical_key s
unfolding canonical_key
canonical_key_twice s = elim (Bool-cases (all is_token s)) [
  | inl token ↦ rw (token, all-token-canonical true s, token) (canonical_case_twice true s)
  | inr other ↦ rw (other, other) refl
]

pub insert-IsCanonical :
    (name : Bytes) (vs : List Bytes) (h : Header)
    → canonical_key name ≡ name
    → IsCanonical h
    → IsCanonical (insert name vs h)
unfolding insert
insert-IsCanonical name vs [] c w = (c, unfold lookup in refl, tt)
insert-IsCanonical name vs ((k, us) ∷ h) c w = elim (Bool-cases (k == name)) [
  | inl here ↦ rw here (c, ground (arith, (bytes_beq_iff k name).0 here, w.1), w.2)
  | inr later ↦ rw later (
    w.0,
    ground (arith, lookup-insert name k vs h, bytes_beq_iff name k, bytes_beq_iff k name, w.1),
    insert-IsCanonical name vs h c w.2,
  )
]

pub delete-IsCanonical : (name : Bytes) (h : Header) → IsCanonical h → IsCanonical (delete name h)
unfolding delete
delete-IsCanonical name [] w = tt
delete-IsCanonical name ((k, us) ∷ h) w = elim (Bool-cases (k == name)) [
  | inl here ↦ rw here (delete-IsCanonical name h w.2)
  | inr later ↦ rw later (
    w.0,
    ground (arith, lookup-delete name k h, bytes_beq_iff name k, bytes_beq_iff k name, w.1),
    delete-IsCanonical name h w.2,
  )
]

pub add-IsCanonical : (h : Header) (name v : Bytes) → IsCanonical h → IsCanonical (add h name v)
unfolding add
add-IsCanonical h name v w =
    insert-IsCanonical (canonical_key name) _ h (canonical_key_twice name) w

pub del-IsCanonical : (h : Header) (name : Bytes) → IsCanonical h → IsCanonical (del h name)
unfolding del
del-IsCanonical h name w = delete-IsCanonical (canonical_key name) h w
