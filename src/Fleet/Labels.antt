-- ===== src/Fleet/Labels.antt =====
-- An object is stored under an ETag with which its body was written.
use external_mirror_cache.Base.{
  In, ◌≡◌, ◌≢◌, ◌⊎◌, inl, inr, sym, ap, ◌∙◌, arith, true, List, [], ◌∷◌, Option, none, some, subst,
  length, bytes_eq,
}
use external_mirror_cache.Go.Header.{Header, IsCanonical, or_empty}
use external_mirror_cache.Go.Escape.{is_bytes}
use external_mirror_cache.Errors.{ok}
use external_mirror_cache.Cache.{CacheKey, CachedEntry}
use external_mirror_cache.Cache.Distinct.{IsKey}
use external_mirror_cache.Freshness.Merge.{merge}
use external_mirror_cache.Server.Touch.{etag, maybe_touch-IsTouch}
use external_mirror_cache.S3.Metadata.{Json, metadata_to_header}
use external_mirror_cache.S3.MetadataText.{AllSurvive}
use external_mirror_cache.S3.Fields.{merge-IsCanonical}
use external_mirror_cache.S3.Api.{Api, Object, Place, place-cases, IsS3}
use external_mirror_cache.S3.Store.{HttpCache, place_of, touch}
use external_mirror_cache.S3.Stored.{IsLabelledBy}
use external_mirror_cache.S3.Touched.{IsGuarded, touch-IsGuarded}
use external_mirror_cache.Fleet.Steps.{
  World, IsAsked, Step, writes, looks, touches, Reach, start, later,
}
use external_mirror_cache.Fleet.Consistent.{
  IsTagged, labels-etag, some_unique, IsSight, IsConsistent, writes-IsConsistent,
  looks-IsConsistent,
}

not_longer : {A : Type 0} (h : List A) (a b : A) → h ≢ a ∷ b ∷ h
not_longer h a b e = let n = ap length e in omega arith

-- A touch that `maybeTouch` asked for keeps the ETag of its entry, or has none.
asked-etag :
    (key : CacheKey) (entry : CachedEntry) (validating : Header)
    → IsCanonical validating
    → IsAsked key entry validating
    → (etag (merge entry.headers validating) ≡ etag (or_empty entry.headers))
      ⊎ (etag (merge entry.headers validating) ≡ [])
asked-etag key entry validating c a =
    elim (maybe_touch-IsTouch a.services a.middleware key entry validating a.key_headers a.before
      c) [
        | inl same ↦ absurd (not_longer a.before _ _ (sym same ∙ a.asked))
        | inr (inl read) ↦ let e = sym read ∙ a.asked in absurd (cc)
        | inr (inr (_, t)) ↦ elim t.keeps_etag [ inl e ↦ inl e | inr (_, e) ↦ inr e ]
      ]

module _ {State : Type 0} (api : Api State) (object : State → Place → Option Object)
    (s3 : IsS3 api object) (j : Json) (c : HttpCache) where
  module _ (bucket_bytes : is_bytes c.bucket ≡ true) (prefix_bytes : is_bytes c.prefix ≡ true) where
    module _ (w : World State) (key : CacheKey) (entry : CachedEntry) (validating : Header)
        (is_key : IsKey key) (seen : In (key, entry) w.seen) (fields : IsCanonical validating)
        (survives : AllSurvive j (merge entry.headers validating))
        (asked : IsAsked key entry validating) (inv : IsConsistent api object s3 j c w) where
      abbrev merged : Header
      merged = merge entry.headers validating

      abbrev after : State
      after = (touch api j c key entry merged w.state).1

      sight : IsSight api object s3 j c w.wrote key entry
      sight = inv.sights key entry seen

      canonical : IsCanonical merged
      canonical = merge-IsCanonical entry.headers validating sight.canonical

      guarded :
          IsGuarded api object s3 j c bucket_bytes prefix_bytes key is_key entry merged canonical
            survives w.state
      guarded =
          touch-IsGuarded api object s3 j c bucket_bytes prefix_bytes key is_key entry merged
            canonical survives w.state

      -- The tag of the merged headers was one of the body that was seen.
      merged-IsTagged : IsTagged w.wrote (place_of c key) sight.found.body (etag merged)
      merged-IsTagged = elim (asked-etag key entry validating fields asked) [
        | inl same ↦
            subst (IsTagged w.wrote (place_of c key) sight.found.body) (sym same) sight.tagged
        | inr gone ↦ inl gone
      ]

      touched_place :
          (o : Object) (h : Header)
          → object after (place_of c key) ≡ some o
          → metadata_to_header j o.metadata ≡ ok h
          → IsTagged w.wrote (place_of c key) o.body (etag h)
      touched_place o h holds read = elim guarded.outcome [
        | inl same ↦ inv.objects (place_of c key) o h (sym same ∙ holds) read
        | inr t ↦
            let same : t.new ≡ o = some_unique (sym t.holds ∙ holds) in
            let tag = labels-etag j merged h o (subst (IsLabelledBy j merged) same t.labels) read in
            let seen_body : t.old.body ≡ sight.found.body =
              s3.etag_body w.state sight.at (place_of c key) t.old sight.found t.held sight.held
                (t.matched ∙ sight.same_etag) in
            let body : o.body ≡ sight.found.body =
              ap (λ (u : Object). u.body) (sym same) ∙ t.body ∙ seen_body in
            rw (body, tag) merged-IsTagged
      ]

      touches-IsConsistent : IsConsistent api object s3 j c (record w { state = after })
      touches-IsConsistent = record {
        sights = inv.sights;
        objects = λ p o h holds read. elim (place-cases p (place_of c key)) [
          | inr ne ↦ inv.objects p o h (sym (guarded.others p ne) ∙ holds) read
          | inl here ↦
              subst (λ (q : Place). IsTagged w.wrote q o.body (etag h)) (sym here)
                (touched_place o h (ap (object after) (sym here) ∙ holds) read)
        ];
      }

    Step-IsConsistent :
        {w w' : World State}
        → Step api j c w w'
        → IsConsistent api object s3 j c w
        → IsConsistent api object s3 j c w'
    Step-IsConsistent {w} (writes key headers body is_key fields survives) inv =
        writes-IsConsistent api object s3 j c w key headers body fields survives inv
    Step-IsConsistent {w} (looks key entry hit) inv =
        looks-IsConsistent api object s3 j c w key entry hit inv
    Step-IsConsistent {w} (touches key entry validating is_key seen fields survives asked) inv =
        touches-IsConsistent w key entry validating is_key seen fields survives asked inv

    Reach-IsConsistent :
        {initial : State} {w : World State}
        → ((p : Place) → object initial p ≡ none)
        → Reach api j c initial w
        → IsConsistent api object s3 j c w
    Reach-IsConsistent empty start = record {
      objects = λ p o h holds read. absurd (nothing_there (sym (empty p) ∙ holds));
      sights = λ key e i. absurd i;
    }
      where
        nothing_there : {o : Object} → none ≡ some o → ⊥
        nothing_there e = cc
    Reach-IsConsistent empty (later r st) = Step-IsConsistent st (Reach-IsConsistent empty r)

    -- On a service that keeps the laws of `IsS3`: from an empty bucket, with a bucket name and a prefix of bytes, after any sequence of writes and
    -- lookups of the instances and of touches of entries that were seen before and that `maybeTouch`
    -- asked for, each with a valid key (`IsKey`), and with headers whose field names are canonical and distinct
    -- and whose lists of values JSON reads back as it wrote them: where the metadata of an object can
    -- be read, the ETag in them is empty or absent, or it is one under which this very body was
    -- written at this place. So no touch labels a body with the validator of another.
    pub Reach-IsTagged :
        {initial : State} {w : World State}
        → ((p : Place) → object initial p ≡ none)
        → Reach api j c initial w
        → (p : Place) (o : Object) (h : Header) → object w.state p ≡ some o
        → metadata_to_header j o.metadata ≡ ok h
        → IsTagged w.wrote p o.body (etag h)
    Reach-IsTagged empty r = (Reach-IsConsistent empty r).objects
