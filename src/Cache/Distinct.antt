-- ===== src/Cache/Distinct.antt =====
-- The keys of the requests in flight: `CacheKey.String` tells all resources apart.
use external_mirror_cache.Base.{
  ℕ, ◌≡◌, ◌≢◌, refl, sym, ◌∙◌, arith, Bool, true, not, ◌||◌, [], ◌∷◌, ◌++◌, Bytes, codes,
  all-append, ◌==◌, nat_eq, bytes_eq, bytes_beq, bytes_beq_iff, if◌then◌else◌, append-nil,
}
use external_mirror_cache.Go.Url.{
  Url, path_mode, host_mode, escape, escape_byte, escaped_path, should_escape, url_string,
  authority, starts_with_slash,
}
use external_mirror_cache.Go.Separate.{free, IsTail, free_unique, append-cancel_left}
use external_mirror_cache.Go.Escape.{is_bytes, escape_injective, escape-free, KeptOut}
use external_mirror_cache.Cache.{CacheKey, key_string}

-- A target URL as `parseTargetURL` builds one from a request that net/http accepts.
pub record IsTarget (u : Url) : Type 0 where
  pub scheme_https : u.scheme ≡ codes "https"
  pub host_ne_nil : u.host ≢ []
  pub host_bytes : is_bytes u.host ≡ true
  pub path_slash : starts_with_slash u.path ≡ true
  pub path_bytes : is_bytes u.path ≡ true
  pub query_bytes : is_bytes u.raw_query ≡ true
  pub query_no_nul : free (λ c. c == 0) u.raw_query ≡ true

pub record IsKey (k : CacheKey) : Type 0 where
  pub target : IsTarget k.url
  pub variant_bytes : is_bytes k.variant ≡ true

abbrev pub mark : ℕ → Bool
mark c = c == b'?'

abbrev pub slash_or_mark : ℕ → Bool
slash_or_mark c = c == b'/' || c == b'?'

pub path_marks : KeptOut path_mode mark
unfolding should_escape
path_marks c h = ground arith

-- A path that begins with a slash is its own escaping's source, and "*" is none.
pub escaped_path-slash :
    (u : Url) → starts_with_slash u.path ≡ true → escaped_path u ≡ escape path_mode u.path
unfolding escaped_path
escaped_path-slash u h = ground (arith, bytes_beq_iff u.path (codes "*"))

pub slash-IsTail :
    (p t : Bytes) → starts_with_slash p ≡ true → IsTail slash_or_mark (escape path_mode p ++ t)
unfolding escape escape_byte should_escape
slash-IsTail [] t h = cc
slash-IsTail (c ∷ p) t h = ground arith

pub key_eq :
    {k k' : CacheKey}
    → IsTarget k.url
    → IsTarget k'.url
    → k.url.host ≡ k'.url.host
    → k.url.path ≡ k'.url.path
    → k.url.raw_query ≡ k'.url.raw_query
    → k.variant ≡ k'.variant
    → k ≡ k'
key_eq t t' h p q v =
    let s = t.scheme_https ∙ sym t'.scheme_https in
    λ i. record {
      url = record { scheme = s i; host = h i; path = p i; raw_query = q i };
      variant = v i;
    }

host_marks : KeptOut host_mode slash_or_mark
unfolding should_escape
host_marks c h = ground arith

abbrev nul : ℕ → Bool
nul c = c == 0

host_nul : KeptOut host_mode nul
unfolding should_escape
host_nul c h = ground arith

path_nul : KeptOut path_mode nul
unfolding should_escape
path_nul c h = ground arith

-- "?" and the raw query, where there is one.
raw_part : Bytes → Bytes
raw_part raw_query = if raw_query == [] then [] else b'?' ∷ raw_query

escape-slash :
    (p : Bytes) → starts_with_slash p ≡ true → starts_with_slash (escape path_mode p) ≡ true
unfolding escape escape_byte should_escape
escape-slash [] h = cc
escape-slash (c ∷ p) h = ground arith

-- The text of a target URL, part by part.
url_string-IsTarget :
    (u : Url)
    → IsTarget u
    → url_string u
      ≡ codes "https://"
        ++ (escape host_mode u.host ++ (escape path_mode u.path ++ raw_part u.raw_query))
unfolding url_string authority raw_part
url_string-IsTarget u t = rw (escaped_path-slash u t.path_slash) (
    ground
      (arith, bytes_beq_iff u.host [], bytes_beq_iff u.scheme [], escape-slash u.path t.path_slash))

raw_part-IsTail : (q : Bytes) → IsTail mark (raw_part q)
unfolding raw_part bytes_beq
raw_part-IsTail [] = tt
raw_part-IsTail (c ∷ q) = refl

raw_part_unique : (q q' : Bytes) → raw_part q ≡ raw_part q' → q ≡ q'
unfolding raw_part bytes_beq
raw_part_unique [] [] e = refl
raw_part_unique [] (d ∷ q') e = cc
raw_part_unique (c ∷ q) [] e = cc
raw_part_unique (c ∷ q) (d ∷ q') e = cc

raw_part-free : (q : Bytes) → free nul q ≡ true → free nul (raw_part q) ≡ true
unfolding raw_part bytes_beq
raw_part-free [] h = refl
raw_part-free (c ∷ q) h = h

host-IsTail :
    (u : Url) → IsTarget u → IsTail slash_or_mark (escape path_mode u.path ++ raw_part u.raw_query)
host-IsTail u t = slash-IsTail u.path (raw_part u.raw_query) t.path_slash

-- The text of a target URL tells its host, path and query.
url_string_unique :
    (u u' : Url)
    → IsTarget u
    → IsTarget u'
    → url_string u ≡ url_string u'
    → (u.host ≡ u'.host) × (u.path ≡ u'.path) × (u.raw_query ≡ u'.raw_query)
url_string_unique u u' t t' e =
    let hosts =
      free_unique slash_or_mark (escape host_mode u.host) (escape host_mode u'.host)
        (escape path_mode u.path ++ raw_part u.raw_query)
        (escape path_mode u'.path ++ raw_part u'.raw_query)
        (escape-free host_mode slash_or_mark host_marks u.host t.host_bytes)
        (escape-free host_mode slash_or_mark host_marks u'.host t'.host_bytes) (host-IsTail u t)
        (host-IsTail u' t')
        (append-cancel_left (codes "https://") _ _
          (sym (url_string-IsTarget u t) ∙ e ∙ url_string-IsTarget u' t')) in
    let paths =
      free_unique mark (escape path_mode u.path) (escape path_mode u'.path) (raw_part u.raw_query)
        (raw_part u'.raw_query) (escape-free path_mode mark path_marks u.path t.path_bytes)
        (escape-free path_mode mark path_marks u'.path t'.path_bytes) (raw_part-IsTail u.raw_query)
        (raw_part-IsTail u'.raw_query) hosts.1 in
    (
      escape_injective host_mode _ _ t.host_bytes t'.host_bytes hosts.0,
      escape_injective path_mode _ _ t.path_bytes t'.path_bytes paths.0,
      raw_part_unique _ _ paths.1,
    )

url_string-free : (u : Url) → IsTarget u → free nul (url_string u) ≡ true
url_string-free u t = rw (
  url_string-IsTarget u t,
  all-append (λ c. not (nul c)) (codes "https://")
      (escape host_mode u.host ++ (escape path_mode u.path ++ raw_part u.raw_query)),
  all-append (λ c. not (nul c)) (escape host_mode u.host)
      (escape path_mode u.path ++ raw_part u.raw_query),
  all-append (λ c. not (nul c)) (escape path_mode u.path) (raw_part u.raw_query),
  escape-free host_mode nul host_nul u.host t.host_bytes,
  escape-free path_mode nul path_nul u.path t.path_bytes,
  raw_part-free u.raw_query t.query_no_nul,
)

-- The separator and the variant, where there is one.
nul_part : Bytes → Bytes
nul_part variant = if variant == [] then [] else 0 ∷ variant

nul_part-IsTail : (v : Bytes) → IsTail nul (nul_part v)
unfolding nul_part bytes_beq
nul_part-IsTail [] = tt
nul_part-IsTail (c ∷ v) = refl

nul_part_unique : (v v' : Bytes) → nul_part v ≡ nul_part v' → v ≡ v'
unfolding nul_part bytes_beq
nul_part_unique [] [] e = refl
nul_part_unique [] (d ∷ v') e = cc
nul_part_unique (c ∷ v) [] e = cc
nul_part_unique (c ∷ v) (d ∷ v') e = cc

key_string_parts : (k : CacheKey) → key_string k ≡ url_string k.url ++ nul_part k.variant
unfolding key_string nul_part
key_string_parts k = ground (arith, append-nil (url_string k.url))

-- Two keys, each of an https URL with a host, a path that begins with a slash and a query
-- without NUL, all of bytes, have the same flight key only if they are equal.
pub key_string_injective :
    (k k' : CacheKey) → IsKey k → IsKey k' → key_string k ≡ key_string k' → k ≡ k'
key_string_injective k k' w w' e =
    let parts =
      free_unique nul (url_string k.url) (url_string k'.url) (nul_part k.variant)
        (nul_part k'.variant) (url_string-free k.url w.target) (url_string-free k'.url w'.target)
        (nul_part-IsTail k.variant) (nul_part-IsTail k'.variant)
        (sym (key_string_parts k) ∙ e ∙ key_string_parts k') in
    let (h, p, q) = url_string_unique k.url k'.url w.target w'.target parts.0 in
    key_eq w.target w'.target h p q (nul_part_unique _ _ parts.1)
