-- ===== src/Server/Requests.antt =====
-- Requests of clients: the targets they name and the replies they get.
use external_mirror_cache.Base.{
  ◌≡◌, ◌≢◌, refl, sym, ap, ◌∙◌, arith, Bool, true, not, ◌||◌, [], ◌∷◌, ◌++◌, Bytes, codes,
  Bool-cases, inl, inr, ◌==◌, nat_eq, bytes_eq, bytes_beq_iff, all-append, subst, ltb, ◌↔◌,
}
use external_mirror_cache.Go.Strings.{has_prefix, trim_prefix, cut}
use external_mirror_cache.Go.Separate.{free}
use external_mirror_cache.Go.Escape.{is_bytes}
use external_mirror_cache.Go.Url.{Url}
use external_mirror_cache.Errors.{ok, ok-injective}
use external_mirror_cache.Cache.{CacheKey, key_string}
use external_mirror_cache.Cache.Distinct.{IsTarget, IsKey, key_string_injective}
use external_mirror_cache.S3.Key.{s3_path_for}
use external_mirror_cache.S3.KeyUnique.{s3_path_for_injective}
use external_mirror_cache.Server.Target.{
  ClientRequest, target_parts, parse_target_url, accept_header, accept_variant_key,
}

abbrev pub no_slash : Bytes → Bool
no_slash = free (λ c. c == b'/')

cut_slash :
    (host rest : Bytes) → no_slash host ≡ true → cut b'/' (host ++ b'/' ∷ rest) ≡ (host, rest, true)
unfolding cut
cut_slash [] rest h = refl
cut_slash (c ∷ host) rest h = ground (arith, cut_slash host rest)

-- What a cut finds: the text is put together again from its parts.
cut_parts :
    (s : Bytes)
    → (cut b'/' s).2 ≡ true
    → (s ≡ (cut b'/' s).0 ++ b'/' ∷ (cut b'/' s).1) × (no_slash (cut b'/' s).0 ≡ true)
unfolding cut
cut_parts [] h = cc
cut_parts (c ∷ s) h = ground (arith, cut_parts s)

trim_slash : (path : Bytes) → trim_prefix (b'/' ∷ path) (codes "/") ≡ path
unfolding trim_prefix has_prefix
trim_slash path = refl

-- A path of a slash, a host that is not empty and has no slash, a slash and a rest names the
-- https target with that host, that rest behind a slash, and the query of the request.
pub parse_target_url_lem :
    (host rest raw_query : Bytes)
    → host ≢ []
    → no_slash host ≡ true
    → parse_target_url (codes "/" ++ (host ++ (codes "/" ++ rest))) raw_query
      ≡ ok (record {
        scheme = codes "https";
        host = host;
        path = codes "/" ++ rest;
        raw_query = raw_query;
      })
unfolding parse_target_url
parse_target_url_lem host rest raw_query ne h =
    rw (trim_slash (host ++ b'/' ∷ rest), cut_slash host rest h)
      (ground (arith, bytes_beq_iff host []))

trim-is_bytes :
    (path : Bytes) → is_bytes path ≡ true → is_bytes (trim_prefix path (codes "/")) ≡ true
unfolding trim_prefix has_prefix
trim-is_bytes [] h = refl
trim-is_bytes (c ∷ path) h = ground arith

abbrev no_nul : Bytes → Bool
no_nul = free (λ c. c == 0)

target_IsTarget :
    (s raw_query : Bytes) (u : Url)
    → is_bytes s ≡ true
    → is_bytes raw_query ≡ true
    → no_nul raw_query ≡ true
    → target_parts s raw_query (cut b'/' s) ≡ ok u
    → IsTarget u
target_IsTarget s raw_query u hs hq hn e =
    elim (Bool-cases (not (cut b'/' s).2 || (cut b'/' s).0 == [])) [
      | inl bad ↦ absurd (ground arith)
      | inr good ↦
          let parts = cut_parts s (ground arith) in
          let bytes = subst (λ t. is_bytes t ≡ true) parts.0 hs in
          let both = all-append (λ c. ltb c 256) (cut b'/' s).0 (b'/' ∷ (cut b'/' s).1) in
          let is = ok-injective _ u (rw good at e) in
          subst IsTarget is (record {
            scheme_https = refl;
            host_ne_nil = λ p. ground (arith, bytes_beq_iff (cut b'/' s).0 []);
            host_bytes = ground arith;
            path_slash = refl;
            path_bytes = ground arith;
            query_bytes = hq;
            query_no_nul = hn;
          })
    ]

-- What net/http guarantees of the texts of a request: bytes, and no NUL in the query.
pub record IsWire (r : ClientRequest) : Type 0 where
  pub path_bytes : is_bytes r.path ≡ true
  pub query_bytes : is_bytes r.raw_query ≡ true
  pub query_no_nul : no_nul r.raw_query ≡ true
  pub accept_bytes : is_bytes (accept_header r) ≡ true

parse_target_url-IsTarget :
    (r : ClientRequest) (u : Url)
    → IsWire r
    → parse_target_url r.path r.raw_query ≡ ok u
    → IsTarget u
unfolding parse_target_url
parse_target_url-IsTarget r u w =
    target_IsTarget (trim_prefix r.path (codes "/")) r.raw_query u
      (trim-is_bytes r.path w.path_bytes) w.query_bytes w.query_no_nul

key_of : Url → ClientRequest → CacheKey
key_of u r = (accept_variant_key u r).0

key_of_lem :
    (u : Url) (r : ClientRequest) → key_of u r ≡ record { url = u; variant = accept_header r }
unfolding key_of accept_variant_key
key_of_lem u r = ground (arith, bytes_beq_iff (accept_header r) [])

key_of-IsKey : (u : Url) (r : ClientRequest) → IsWire r → IsTarget u → IsKey (key_of u r)
key_of-IsKey u r w t = rw (key_of_lem u r) (record { target = t; variant_bytes = w.accept_bytes })

-- Two requests of bytes, without NUL in the query, that name targets and have the same path in
-- the bucket name the same target and have the same joined Accept.
pub shared_object :
    (prefix : Bytes) (r r' : ClientRequest) (u u' : Url)
    → IsWire r
    → IsWire r'
    → parse_target_url r.path r.raw_query ≡ ok u
    → parse_target_url r'.path r'.raw_query ≡ ok u'
    → s3_path_for prefix (accept_variant_key u r).0
      ≡ s3_path_for prefix (accept_variant_key u' r').0
    → (u ≡ u') × (accept_header r ≡ accept_header r')
unfolding key_of
shared_object prefix r r' u u' w w' p p' e =
    let t = parse_target_url-IsTarget r u w p in
    let t' = parse_target_url-IsTarget r' u' w' p' in
    let same =
      s3_path_for_injective prefix (key_of u r) (key_of u' r') (key_of-IsKey u r w t)
        (key_of-IsKey u' r' w' t') e in
    let keys = sym (key_of_lem u r) ∙ same ∙ key_of_lem u' r' in
    (ap (λ k. k.url) keys, ap (λ k. k.variant) keys)

-- Two requests of bytes, without NUL in the query, that name targets have the same flight key
-- exactly when they have the same path in the bucket.
pub flight_iff_object :
    (prefix : Bytes) (r r' : ClientRequest) (u u' : Url)
    → IsWire r
    → IsWire r'
    → parse_target_url r.path r.raw_query ≡ ok u
    → parse_target_url r'.path r'.raw_query ≡ ok u'
    → (key_string (accept_variant_key u r).0 ≡ key_string (accept_variant_key u' r').0) ↔ (
        s3_path_for prefix (accept_variant_key u r).0
        ≡ s3_path_for prefix (accept_variant_key u' r').0)
unfolding key_of
flight_iff_object prefix r r' u u' w w' p p' =
    let k = key_of-IsKey u r w (parse_target_url-IsTarget r u w p) in
    let k' = key_of-IsKey u' r' w' (parse_target_url-IsTarget r' u' w' p') in
    (
      λ e. ap (s3_path_for prefix) (key_string_injective _ _ k k' e),
      λ e. ap key_string (s3_path_for_injective prefix _ _ k k' e),
    )
