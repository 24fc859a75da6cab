-- ===== src/S3/Metadata.antt =====
-- s3_metadata.go: `headerToMetadata` and `metadataToHeader`. A map is a list, in the order in which
-- its range loop goes through it.
use external_mirror_cache.Base.{
  not, List, [], ◌∷◌, Bool, Bytes, codes, ◌==◌, bytes_eq, if◌then◌else◌, any,
}
use external_mirror_cache.Base.Assoc.{insert}
use external_mirror_cache.Go.Strings.{trim_prefix}
use external_mirror_cache.Go.Header.{Header, canonical_key, add}
use external_mirror_cache.Errors.{wrapped, Result, ok, err}

-- encoding/json at lists of strings.
pub record Json : Type 0 where
  pub marshal : List Bytes → Result Bytes
  pub unmarshal : Bytes → Result (List Bytes)

abbrev pub Metadata : Type 0
Metadata = List (Bytes × Bytes)

-- metadataHeaderAllowlist
abbrev pub allowlist : List Bytes
allowlist =
    codes "Age"
    ∷ codes "Cache-Control"
    ∷ codes "Content-Encoding"
    ∷ codes "Content-Length"
    ∷ codes "Content-Type"
    ∷ codes "Date"
    ∷ codes "Docker-Content-Digest"
    ∷ codes "Etag"
    ∷ codes "Expires"
    ∷ codes "Last-Modified"
    ∷ codes "Vary"
    ∷ []

unfoldable pub is_listed : Bytes → Bool
is_listed name = any (λ n. n == canonical_key name) allowlist

-- The loop of `headerToMetadata`, behind the metadata already made.
unfoldable pub marshal_fields : Json → Header → Metadata → Result Metadata
marshal_fields j [] metadata = ok metadata
marshal_fields j ((name, vs) ∷ fields) metadata =
    let skipped = marshal_fields j fields metadata in
    if not (is_listed name) then skipped else elim (j.marshal vs) [
      | err e ↦ err (wrapped (codes "marshal metadata %s=%s") (name ∷ vs) e)
      | ok text ↦ marshal_fields j fields (insert name text metadata)
    ]

unfoldable pub header_to_metadata : Json → Header → Result Metadata
header_to_metadata j headers = marshal_fields j headers []

unfoldable pub add_all : Bytes → List Bytes → Header → Header
add_all name [] headers = headers
add_all name (v ∷ vs) headers = add_all name vs (add headers name v)

-- The loop of `metadataToHeader`, behind the headers already read.
unfoldable pub unmarshal_fields : Json → Metadata → Header → Result Header
unmarshal_fields j [] headers = ok headers
unmarshal_fields j ((k, v) ∷ metadata) headers = elim (j.unmarshal v) [
  | err e ↦ err (wrapped (codes "unmarshal metadata %s=%s") (k ∷ v ∷ []) e)
  | ok vs ↦ unmarshal_fields j metadata (add_all (trim_prefix k (codes "x-amz-meta-")) vs headers)
]

unfoldable pub metadata_to_header : Json → Metadata → Result Header
metadata_to_header j metadata = unmarshal_fields j metadata []
