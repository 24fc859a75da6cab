-- ===== src/Tests/Bucket.antt =====
-- A service that meets the laws: it holds what it is given, the ETag of an object is its body, and
-- the clock of the service stands still.
use external_mirror_cache.Base.{
  ◌≡◌, ◌≢◌, ◌⊎◌, inl, inr, refl, sym, ap, ◌∙◌, false, codes, Option, none, some, Bool-cases, ◌==◌,
  bytes_eq, bytes_beq_iff, if◌then◌else◌,
}
use external_mirror_cache.Base.Int.{pos}
use external_mirror_cache.Errors.{Error, foreign, Result, ok, err}
use external_mirror_cache.S3.Api.{
  Place, place_beq, place_beq_iff, HeadOutput, CopyInput, UploadInput, Api, Object, lower_names,
  view, IsUpload, IsCopy, IsS3,
}

abbrev pub Bucket : Type 0
Bucket = Place → Option Object

abbrev pub empty_bucket : Bucket
empty_bucket p = none

-- The object of a place: its ETag is its body.
abbrev pub with_etag : Option Object → Option Object
with_etag none = none
with_etag (some o) = some (record o { etag = o.body })

abbrev pub object : Bucket → Place → Option Object
object s p = with_etag (s p)

abbrev absent : Error
absent = foreign false (some (codes "NotFound")) (codes "no such key")

abbrev failed : Error
failed = foreign false (some (codes "PreconditionFailed")) (codes "precondition failed")

abbrev or_absent : Option Object → Result HeadOutput
or_absent none = err absent
or_absent (some o) = ok (view o)

abbrev put_at : Place → Object → Bucket → Bucket
put_at p o s q = if place_beq q p then some o else s q

abbrev uploaded : UploadInput → Object
uploaded i = record {
  body = i.body;
  metadata = lower_names i.metadata;
  content_type = i.content_type;
  etag = i.body;
  last_modified = pos 1000;
  size = pos 3;
}

abbrev copied : CopyInput → Object → Object
copied i o = record o { metadata = lower_names i.metadata; content_type = i.content_type }

abbrev copy_from : CopyInput → Option Object → Bucket → Result (Unit {0}) × Bucket
copy_from i none s = (err absent, s)
copy_from i (some o) s =
    if o.etag == i.if_match then (ok tt, put_at i.place (copied i o) s) else (err failed, s)

abbrev pub bucket_api : Api Bucket
bucket_api = record {
  head_object = λ s p. or_absent (object s p);
  copy_object = λ s i. copy_from i (object s i.place) s;
  upload_object = λ s i. (ok tt, put_at i.place (uploaded i) s);
  presign_get_object = λ s p. ok (codes "https://s3/signed");
}

put_at_self : (p : Place) (o : Object) (s : Bucket) → put_at p o s p ≡ some o
put_at_self p o s = rw ((place_beq_iff p p).1 refl) refl

put_at_other : (p q : Place) (o : Object) (s : Bucket) → q ≢ p → put_at p o s q ≡ s q
put_at_other p q o s ne = elim (Bool-cases (place_beq q p)) [
  | inl e ↦ absurd (ne ((place_beq_iff q p).0 e))
  | inr other ↦ rw other refl
]

upload_effect_lem :
    (s : Bucket) (i : UploadInput)
    → (o : Object) × (object (bucket_api.upload_object s i).1 i.place ≡ some o) × IsUpload i o
upload_effect_lem s i = (
  uploaded i,
  ap with_etag (put_at_self i.place (uploaded i) s),
  record { body = refl; metadata = refl; content_type = refl },
)

abbrev IsCopied : Bucket → CopyInput → Result (Unit {0}) × Bucket → Type 0
IsCopied s i done =
    (old : Object) × (new : Object) × (object s i.place ≡ some old)
    × (object done.1 i.place ≡ some new)
    × IsCopy i old new

copy_cases :
    (s : Bucket) (i : CopyInput) (o : Option Object)
    → object s i.place ≡ o
    → (((e : Error) × (copy_from i o s ≡ (err e, s)))) ⊎ IsCopied s i (copy_from i o s)
copy_cases s i none held = inl (absent, refl)
copy_cases s i (some o) held = elim (Bool-cases (o.etag == i.if_match)) [
  | inr ne ↦ inl (failed, rw ne refl)
  | inl e ↦ rw e (
      inr (
        o,
        record (copied i o) { etag = o.body },
        held,
        ap with_etag (put_at_self i.place (copied i o) s),
        record {
          matched = (bytes_beq_iff o.etag i.if_match).0 e;
          body = refl;
          metadata = refl;
          content_type = refl;
        },
      ))
]

some_unique : {a b : Object} → some a ≡ some b → a ≡ b
some_unique e = cc

head_ok_at :
    (o : Option Object) (out : HeadOutput)
    → or_absent o ≡ ok out
    → (u : Object) × (o ≡ some u) × (out ≡ view u)
head_ok_at none out e = absurd (cc)
head_ok_at (some u) out e = (u, refl, cc)

etag_is_body : (o : Option Object) (u : Object) → with_etag o ≡ some u → u.etag ≡ u.body
etag_is_body none u e = absurd (cc)
etag_is_body (some o) u e =
    let same = some_unique e in
    ap (λ (v : Object). v.etag) (sym same) ∙ ap (λ (v : Object). v.body) same

copy_other_at :
    (s : Bucket) (i : CopyInput) (o : Option Object) (p : Place)
    → p ≢ i.place
    → object (copy_from i o s).1 p ≡ object s p
copy_other_at s i none p ne = refl
copy_other_at s i (some o) p ne = elim (Bool-cases (o.etag == i.if_match)) [
  | inl e ↦ rw e (ap with_etag (put_at_other i.place p (copied i o) s ne))
  | inr other ↦ rw other refl
]

pub bucket-IsS3 : IsS3 bucket_api object
bucket-IsS3 = record {
  head_ok = λ s p out e. head_ok_at (object s p) out e;
  upload_other = λ s i p ne. ap with_etag (put_at_other i.place p (uploaded i) s ne);
  upload_effect = λ s i. inr (upload_effect_lem s i);
  upload_ok = λ s i e. upload_effect_lem s i;
  copy_other = λ s i p ne. copy_other_at s i (object s i.place) p ne;
  copy_effect = λ s i source. elim (copy_cases s i (object s i.place) refl) [
    | inr done ↦ inr done
    | inl (e, same) ↦ inl (ap (λ (d : Result (Unit {0}) × Bucket). object d.1 i.place) same)
  ];
  copy_ok = λ s i source e. elim (copy_cases s i (object s i.place) refl) [
    | inr done ↦ done
    | inl (f, same) ↦ absurd (cc)
  ];
  etag_body = λ s t p o u h k e. sym (etag_is_body (s p) o h) ∙ e ∙ etag_is_body (t p) u k;
}
