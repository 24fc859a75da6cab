-- ===== src/Fleet/Consistent.antt =====
-- What holds of the objects and of the entries that were seen, and that writes and lookups keep it.
use external_mirror_cache.Base.{
  In, ◌≡◌, ◌⊎◌, inl, inr, refl, sym, ap, ◌∙◌, true, List, [], ◌∷◌, Bytes, codes, Option, some,
  subst, bytes_eq, bytes_beq,
}
use external_mirror_cache.Go.Header.{
  Header, IsCanonical, get, values, first, or_empty, canonical_key,
}
use external_mirror_cache.Errors.{ok, ok-injective}
use external_mirror_cache.Cache.{CacheKey, CachedEntry}
use external_mirror_cache.Server.Touch.{etag}
use external_mirror_cache.S3.Metadata.{Json, is_listed, metadata_to_header}
use external_mirror_cache.S3.MetadataText.{AllSurvive}
use external_mirror_cache.S3.Fields.{metadata_to_header-IsCanonical}
use external_mirror_cache.S3.Api.{Api, Object, Place, place-cases, IsS3}
use external_mirror_cache.S3.Store.{HttpCache, place_of, put, head}
use external_mirror_cache.S3.Stored.{IsLabelledBy, put_effect, put_other}
use external_mirror_cache.S3.Looked.{head-IsFound}
use external_mirror_cache.Fleet.Steps.{Label, World}

-- The tag is empty, or the body was written under it.
abbrev pub IsTagged : List Label → Place → Bytes → Bytes → Type 0
IsTagged wrote p body tag = (tag ≡ []) ⊎ In (record { place = p; body = body; tag = tag }) wrote

pub IsTagged-more :
    (l : Label) (wrote : List Label) (p : Place) (body tag : Bytes)
    → IsTagged wrote p body tag
    → IsTagged (l ∷ wrote) p body tag
IsTagged-more l wrote p body tag (inl e) = inl e
IsTagged-more l wrote p body tag (inr i) = inr (inr i)

etag_listed : is_listed (codes "ETag") ≡ true
unfolding is_listed canonical_key bytes_beq
etag_listed = refl

-- The ETag of labels that are read back.
pub labels-etag :
    (j : Json) (headers h : Header) (o : Object)
    → IsLabelledBy j headers o
    → metadata_to_header j o.metadata ≡ ok h
    → etag h ≡ etag headers
unfolding get
labels-etag j headers h o l e =
    let same = ok-injective h l.after (sym e ∙ l.read) in
    let tag : values l.after (codes "ETag") ≡ values headers (codes "ETag") =
      l.keeps (codes "ETag") ∙ rw etag_listed refl in
    ap (λ (u : Header). first (values u (codes "ETag"))) same ∙ ap first tag

pub some_unique : {a b : Object} → some a ≡ some b → a ≡ b
some_unique e = cc

module _ {State : Type 0} (api : Api State) (object : State → Place → Option Object)
    (s3 : IsS3 api object) (j : Json) (c : HttpCache) where
  -- What an instance has seen: an object that was there, and the tag that its body had.
  pub record IsSight (wrote : List Label) (key : CacheKey) (e : CachedEntry) : Type 0 where
    pub at : State
    pub found : Object
    pub held : object at (place_of c key) ≡ some found
    pub same_etag : e.object_etag ≡ found.etag
    pub canonical : IsCanonical (or_empty e.headers)
    pub tagged : IsTagged wrote (place_of c key) found.body (etag (or_empty e.headers))

  pub record IsConsistent (w : World State) : Type 0 where
    pub objects :
        (p : Place) (o : Object) (h : Header)
        → object w.state p ≡ some o
        → metadata_to_header j o.metadata ≡ ok h
        → IsTagged w.wrote p o.body (etag h)
    pub sights : (key : CacheKey) (e : CachedEntry) → In (key, e) w.seen → IsSight w.wrote key e

  IsSight-more :
      (l : Label) (wrote : List Label) (key : CacheKey) (e : CachedEntry)
      → IsSight wrote key e
      → IsSight (l ∷ wrote) key e
  IsSight-more l wrote key e i = record {
    at = i.at;
    found = i.found;
    held = i.held;
    same_etag = i.same_etag;
    canonical = i.canonical;
    tagged = IsTagged-more l wrote (place_of c key) _ _ i.tagged;
  }

  IsTagged-by :
      (wrote : List Label) (p : Place) (body : Bytes) (headers h : Header) (o : Object)
      → o.body ≡ body
      → etag h ≡ etag headers
      → IsTagged (record { place = p; body = body; tag = etag headers } ∷ wrote) p o.body (etag h)
  IsTagged-by wrote p body headers h o e f = inr (inl (rw (e, f) refl))

  -- The object of a write, whether it took effect or not.
  written_place :
      (w : World State) (key : CacheKey) (headers : Header) (body : Bytes)
      → IsCanonical headers
      → AllSurvive j headers
      → IsConsistent w
      → (o : Object) (h : Header)
      → object (put api j c key headers body w.state).1 (place_of c key) ≡ some o
      → metadata_to_header j o.metadata ≡ ok h
      → IsTagged
          (record { place = place_of c key; body = body; tag = etag headers } ∷ w.wrote)
          (place_of c key)
          o.body
          (etag h)
  written_place w key headers body canonical survives inv o h holds read =
      let l : Label = record { place = place_of c key; body = body; tag = etag headers } in
      elim (put_effect api object s3 j c key headers body w.state canonical survives) [
        | inl same ↦
            IsTagged-more l w.wrote (place_of c key) o.body (etag h)
              (inv.objects (place_of c key) o h (sym same ∙ holds) read)
        | inr written ↦
            let same : written.found ≡ o = some_unique (sym written.holds ∙ holds) in
            IsTagged-by w.wrote (place_of c key) body headers h o
              (ap (λ (u : Object). u.body) (sym same) ∙ written.body_is)
              (labels-etag j headers h o (subst (IsLabelledBy j headers) same written.labels) read)
      ]

  pub writes-IsConsistent :
      (w : World State) (key : CacheKey) (headers : Header) (body : Bytes)
      → IsCanonical headers
      → AllSurvive j headers
      → IsConsistent w
      → IsConsistent (record {
        state = (put api j c key headers body w.state).1;
        wrote = record { place = place_of c key; body = body; tag = etag headers } ∷ w.wrote;
        seen = w.seen;
      })
  writes-IsConsistent w key headers body canonical survives inv =
      let l : Label = record { place = place_of c key; body = body; tag = etag headers } in
      record {
        sights = λ k e i. IsSight-more l w.wrote k e (inv.sights k e i);
        objects = λ p o h holds read. elim (place-cases p (place_of c key)) [
          | inr ne ↦ IsTagged-more l w.wrote p o.body (etag h) (
              inv.objects p o h
                (sym (put_other api object s3 j c key headers body w.state canonical survives p ne)
                  ∙ holds)
                read)
          | inl here ↦
              subst (λ (q : Place). IsTagged (l ∷ w.wrote) q o.body (etag h)) (sym here)
                (written_place w key headers body canonical survives inv o h
                  (ap (object (put api j c key headers body w.state).1) (sym here) ∙ holds) read)
        ];
      }

  pub looks-IsConsistent :
      (w : World State) (key : CacheKey) (entry : CachedEntry)
      → head api j c key w.state ≡ ok (some entry)
      → IsConsistent w
      → IsConsistent (record w { seen = (key, entry) ∷ w.seen })
  looks-IsConsistent w key entry hit inv = record {
    objects = inv.objects;
    sights = λ k e i. elim i [
      | inr before ↦ inv.sights k e before
      | inl now ↦
          let f = head-IsFound api object s3 j c key w.state entry hit in
          let sight : IsSight w.wrote key entry = record {
            at = w.state;
            found = f.found;
            held = f.holds;
            same_etag = f.is_entry.object_etag;
            canonical =
                rw f.is_entry.headers_are
                  (metadata_to_header-IsCanonical j f.found.metadata f.headers f.read);
            tagged =
                rw f.is_entry.headers_are
                  (inv.objects (place_of c key) f.found f.headers f.holds f.read);
          } in
          subst (λ (q : CacheKey × CachedEntry). IsSight w.wrote q.0 q.1) (sym now) sight
    ];
  }
