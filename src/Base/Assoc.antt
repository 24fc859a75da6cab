-- ===== src/Base/Assoc.antt =====
-- Go's maps as association lists: a lookup reads the first entry of a key.
use mathlib.Core.Path.{◌≡◌, refl}
use mathlib.Core.Option.{Option, none, some}
use mathlib.Core.List.{List, [], ◌∷◌}
use native.Mathlib.Omega.{arith}
use external_mirror_cache.Base.Tests.{Eq, ◌==◌, if◌then◌else◌}

module _ {ℓ κ} {Key : Type ℓ} {Item : Type κ} ⦃e : Eq Key⦄ where
  unfoldable pub lookup : Key → List (Key × Item) → Option Item
  lookup key [] = none
  lookup key ((name, item) ∷ fields) = if name == key then some item else lookup key fields

  unfoldable pub insert : Key → Item → List (Key × Item) → List (Key × Item)
  insert key new [] = (key, new) ∷ []
  insert key new (field ∷ fields) =
      let rest = insert key new fields in
      if field.0 == key then (key, new) ∷ fields else field ∷ rest

  unfoldable pub delete : Key → List (Key × Item) → List (Key × Item)
  delete key [] = []
  delete key (field ∷ fields) =
      let rest = delete key fields in if field.0 == key then rest else field ∷ rest

  pub lookup-insert :
      (key other : Key) (new : Item) (fields : List (Key × Item))
      → lookup other (insert key new fields)
        ≡ (if key == other then some new else lookup other fields)
  unfolding lookup insert
  lookup-insert key other new [] = refl
  lookup-insert key other new ((name, item) ∷ fields) =
      let later = lookup-insert key other new fields in
      ground (arith, later, e.test_iff name key, e.test_iff name other, e.test_iff key other)

  pub lookup-delete :
      (key other : Key) (fields : List (Key × Item))
      → lookup other (delete key fields) ≡ (if key == other then none else lookup other fields)
  unfolding lookup delete
  lookup-delete key other [] = ground arith
  lookup-delete key other ((name, item) ∷ fields) =
      let later = lookup-delete key other fields in
      ground (arith, later, e.test_iff name key, e.test_iff name other, e.test_iff key other)
