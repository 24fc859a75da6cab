-- ===== src/S3/MetadataText.antt =====
-- The metadata that a header is written as.
use external_mirror_cache.Base.{
  ◌≡◌, refl, sym, ap, ◌∙◌, arith, List, [], ◌∷◌, ◌++◌, none, Bytes, bytes_eq, bytes_beq_iff, nat_eq,
  if◌then◌else◌, Bool-cases, inl, inr, append_assoc, append-nil,
}
use external_mirror_cache.Base.Assoc.{lookup, insert, lookup-insert}
use external_mirror_cache.Go.Header.{Header, IsCanonical}
use external_mirror_cache.Errors.{ok}
use external_mirror_cache.S3.Metadata.{Json, Metadata, is_listed, marshal_fields}

-- Appending where the key is new.
insert-new :
    (name text : Bytes) (m : Metadata)
    → lookup name m ≡ none
    → insert name text m ≡ m ++ (name, text) ∷ []
unfolding insert lookup
insert-new name text [] h = refl
insert-new name text ((k, v) ∷ m) h = ground (arith, insert-new name text m)

-- The JSON of a list that is read back as it was.
abbrev pub Survives : Json → List Bytes → Type 0
Survives j vs = (text : Bytes) × (j.marshal vs ≡ ok text) × (j.unmarshal text ≡ ok vs)

abbrev pub AllSurvive : Json → Header → Type 0
AllSurvive j [] = Unit
AllSurvive j ((name, vs) ∷ h) = Survives j vs × AllSurvive j h

-- No field is named in the metadata.
abbrev pub IsNew : Metadata → Header → Type 0
IsNew m [] = Unit
IsNew m ((name, vs) ∷ h) = (lookup name m ≡ none) × IsNew m h

IsNew-insert :
    (name text : Bytes) (m : Metadata) (h : Header)
    → lookup name h ≡ none
    → IsNew m h
    → IsNew (insert name text m) h
unfolding lookup
IsNew-insert name text m [] absent new = tt
IsNew-insert name text m ((k, vs) ∷ h) absent new = (
  ground (arith, lookup-insert name k text m, bytes_beq_iff k name, bytes_beq_iff name k),
  IsNew-insert name text m h (ground arith) new.1,
)

abbrev pub texts : (j : Json) (h : Header) → AllSurvive j h → Metadata
texts j [] s = []
texts j ((name, vs) ∷ h) s =
    let rest = texts j h s.1 in if is_listed name then (name, s.0.0) ∷ rest else rest

pub marshal_fields-texts :
    (j : Json) (h : Header) (s : AllSurvive j h) (m : Metadata)
    → IsCanonical h
    → IsNew m h
    → marshal_fields j h m ≡ ok (m ++ texts j h s)
unfolding marshal_fields
marshal_fields-texts j [] s m c new = ap ok (sym (append-nil m))
marshal_fields-texts j ((name, vs) ∷ h) s m c new = elim (Bool-cases (is_listed name)) [
  | inr other ↦ rw other (marshal_fields-texts j h s.1 m c.2 new.1)
  | inl listed ↦
      let text = s.0.0 in
      let step =
        marshal_fields-texts j h s.1 (insert name text m) c.2
          (IsNew-insert name text m h c.1 new.1) in
      rw (listed, s.0.1)
        (step
          ∙ ap (λ (k : Metadata). ok (k ++ texts j h s.1)) (insert-new name text m new.0)
          ∙ ap ok (append_assoc m ((name, text) ∷ []) (texts j h s.1)))
]
