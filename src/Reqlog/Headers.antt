-- ===== src/Reqlog/Headers.antt =====
-- internal/reqlog/headers.go: `HeaderAttrs`.
use external_mirror_cache.Base.{List, [], ◌∷◌, Bytes, codes, length, ltb, if◌then◌else◌}
use external_mirror_cache.Go.Strings.{join}
use external_mirror_cache.Go.Header.{Header, values}

abbrev pub safe_headers : List Bytes
safe_headers =
    codes "Accept"
    ∷ codes "Accept-Encoding"
    ∷ codes "User-Agent"
    ∷ codes "Content-Type"
    ∷ codes "Content-Length"
    ∷ codes "Range"
    ∷ codes "If-Range"
    ∷ codes "If-None-Match"
    ∷ codes "If-Modified-Since"
    ∷ codes "Etag"
    ∷ codes "Last-Modified"
    ∷ codes "Location"
    ∷ []

-- The loop, at the names that are left.
unfoldable pub attrs_of : List Bytes → Header → List (Bytes × Bytes)
attrs_of [] h = []
attrs_of (name ∷ names) h =
    let rest = attrs_of names h in
    let vals = values h name in
    if ltb 0 (length vals) then (name, join (codes ", ") vals) ∷ rest else rest

-- slog.Group
pub record Group : Type 0 where
  pub name : Bytes
  pub attrs : List (Bytes × Bytes)

unfoldable pub header_attrs : Bytes → Header → Group
header_attrs group h = record { name = group; attrs = attrs_of safe_headers h }
