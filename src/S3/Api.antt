-- ===== src/S3/Api.antt =====
-- The S3 client that s3_cache.go calls (`s3ObjectClient`, `s3Uploader`, the presign client) is a
-- parameter: what it is given and what it answers, and the documented behaviour that the cache
-- relies on. `State` is whatever the service keeps.
use external_mirror_cache.Base.{
  Bool, true, ◌&&◌, ◌==◌, bytes_eq, bytes_beq_iff, Bool-cases, arith, ◌↔◌, inl, inr, ◌≡◌, ◌≢◌, ◌⊎◌,
  ◌++◌, map, Option, some, Bytes, codes,
}
use external_mirror_cache.Base.Int.{ℤ}
use external_mirror_cache.Errors.{Result, ok}
use external_mirror_cache.Go.Strings.{lower}
use external_mirror_cache.S3.Metadata.{Metadata}
use external_mirror_cache.S3.MetadataTrip.{renamed}
use external_mirror_cache.S3.CopySource.{query_decode}

-- Where an object is: a bucket and a path.
pub record Place : Type 0 where
  pub bucket : Bytes
  pub path : Bytes

abbrev pub place_beq : Place → Place → Bool
place_beq p q = p.bucket == q.bucket && p.path == q.path

pub place_beq_iff : (p q : Place) → (place_beq p q ≡ true) ↔ (p ≡ q)
place_beq_iff p q = ground (arith, bytes_beq_iff p.bucket q.bucket, bytes_beq_iff p.path q.path)

-- Places can be told apart.
pub place-cases : (p q : Place) → (p ≡ q) ⊎ (p ≢ q)
place-cases p q = elim (Bool-cases (place_beq p q)) [
  | inl e ↦ inl ((place_beq_iff p q).0 e)
  | inr ne ↦ inr (λ e. let same = (place_beq_iff p q).1 e in absurd (cc))
]

-- s3.HeadObjectOutput: a nil pointer is `none`.
pub record HeadOutput : Type 0 where
  pub metadata : Metadata
  pub last_modified : Option ℤ
  pub etag : Option Bytes
  pub content_length : Option ℤ

-- s3.CopyObjectInput, its directive to replace the metadata included.
pub record CopyInput : Type 0 where
  pub place : Place
  pub copy_source : Bytes
  pub if_match : Bytes
  pub metadata : Metadata
  pub content_type : Option Bytes

-- transfermanager.UploadObjectInput
pub record UploadInput : Type 0 where
  pub place : Place
  pub body : Bytes
  pub metadata : Metadata
  pub content_type : Option Bytes

pub record Api (State : Type 0) : Type 0 where
  pub head_object : State → Place → Result HeadOutput
  pub copy_object : State → CopyInput → Result (Unit {0}) × State
  pub upload_object : State → UploadInput → Result (Unit {0}) × State
  pub presign_get_object : State → Place → Result Bytes

pub record Object : Type 0 where
  pub body : Bytes
  pub metadata : Metadata
  pub content_type : Option Bytes
  pub etag : Bytes
  pub last_modified : ℤ
  pub size : ℤ

-- User metadata come back with their names in lower case.
abbrev pub lower_names : Metadata → Metadata
lower_names = renamed (map lower)

abbrev pub view : Object → HeadOutput
view o = record {
  metadata = o.metadata;
  last_modified = some o.last_modified;
  etag = some o.etag;
  content_length = some o.size;
}

-- The body and the labels of an upload; the service chooses the rest.
pub record IsUpload (i : UploadInput) (o : Object) : Type 0 where
  pub body : o.body ≡ i.body
  pub metadata : o.metadata ≡ lower_names i.metadata
  pub content_type : o.content_type ≡ i.content_type

-- A copy of an object onto itself: the body stays, the labels are replaced.
pub record IsCopy (i : CopyInput) (old new : Object) : Type 0 where
  pub matched : old.etag ≡ i.if_match
  pub body : new.body ≡ old.body
  pub metadata : new.metadata ≡ lower_names i.metadata
  pub content_type : new.content_type ≡ i.content_type

-- The service: what it holds, and how the calls read and change that. A call that fails may yet
-- have had its effect.
pub record IsS3 {State : Type 0} (api : Api State) (object : State → Place → Option Object)
    : Type 0 where
  pub head_ok :
      (s : State) (p : Place) (out : HeadOutput)
      → api.head_object s p ≡ ok out
      → (o : Object) × (object s p ≡ some o) × (out ≡ view o)
  pub upload_other :
      (s : State) (i : UploadInput) (p : Place)
      → p ≢ i.place
      → object (api.upload_object s i).1 p ≡ object s p
  pub upload_effect :
      (s : State) (i : UploadInput)
      → (object (api.upload_object s i).1 i.place ≡ object s i.place)
        ⊎ ((o : Object) × (object (api.upload_object s i).1 i.place ≡ some o) × IsUpload i o)
  pub upload_ok :
      (s : State) (i : UploadInput)
      → (api.upload_object s i).0 ≡ ok tt
      → (o : Object) × (object (api.upload_object s i).1 i.place ≡ some o) × IsUpload i o
  -- For a copy onto itself, which the decoded source says.
  pub copy_other :
      (s : State) (i : CopyInput) (p : Place)
      → p ≢ i.place
      → object (api.copy_object s i).1 p ≡ object s p
  pub copy_effect :
      (s : State) (i : CopyInput)
      → query_decode i.copy_source ≡ i.place.bucket ++ (codes "/" ++ i.place.path)
      → (object (api.copy_object s i).1 i.place ≡ object s i.place)
        ⊎ ((old : Object) × (new : Object) × (object s i.place ≡ some old)
            × (object (api.copy_object s i).1 i.place ≡ some new)
            × IsCopy i old new)
  pub copy_ok :
      (s : State) (i : CopyInput)
      → query_decode i.copy_source ≡ i.place.bucket ++ (codes "/" ++ i.place.path)
      → (api.copy_object s i).0 ≡ ok tt
      → (old : Object) × (new : Object) × (object s i.place ≡ some old)
        × (object (api.copy_object s i).1 i.place ≡ some new)
        × IsCopy i old new
  -- The ETag of an object tells its contents.
  pub etag_body :
      (s t : State) (p : Place) (o u : Object)
      → object s p ≡ some o
      → object t p ≡ some u
      → o.etag ≡ u.etag
      → o.body ≡ u.body
