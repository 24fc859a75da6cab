-- ===== src/Reqlog/Logged.antt =====
-- The status that is logged against the status that is sent.
use external_mirror_cache.Base.{
  ℕ, ◌≡◌, refl, ◌∙◌, arith, List, [], ◌∷◌, Option, none, some, Bytes, codes, nat_eq, ◌≤◌,
}
use external_mirror_cache.Go.Header.{Header, set}
use external_mirror_cache.Freshness.Evaluate.{Time, sub_time}
use external_mirror_cache.Reqlog.Headers.{header_attrs}
use external_mirror_cache.Reqlog.Writer.{
  ResponseWriter, StatusWriter, Request, LogLine, started, completed, write_header, write,
  middleware,
}

-- What a handler does with its writer.
pub data Op : Type 0 where
  heads : ℕ → Op
  writes : Bytes → Op

module _ {W : Type 0} (http_writer : ResponseWriter W) where
  abbrev pub run_op : Op → StatusWriter W → StatusWriter W
  run_op (heads code) w = write_header http_writer code w
  run_op (writes b) w = (write http_writer b w).1

  -- In their order.
  abbrev pub run_ops : List Op → StatusWriter W → StatusWriter W
  run_ops [] w = w
  run_ops (op ∷ ops) w = run_ops ops (run_op op w)

  -- What net/http documents of the status that goes out: WriteHeader with a final status sends it, a
  -- Write before that sends 200, and then the status stays.
  pub record IsHttp (sent : W → Option ℕ) : Type 0 where
    pub heads_first :
        (code : ℕ) (w : W)
        → 200 ≤ code
        → sent w ≡ none
        → sent (http_writer.write_header code w) ≡ some code
    pub writes_first :
        (b : Bytes) (w : W) → sent w ≡ none → sent (http_writer.write b w).1 ≡ some 200
    pub writes_later :
        (b : Bytes) (w : W) (code : ℕ)
        → sent w ≡ some code
        → sent (http_writer.write b w).1 ≡ some code
    pub sets : (h : Header) (w : W) → sent (http_writer.set_header h w) ≡ sent w

  module _ (sent : W → Option ℕ) (http : IsHttp sent) where
    -- A body, and no status: as http.Error and http.Redirect go on.
    abbrev pub OnlyWrites : List Op → Type 0
    OnlyWrites [] = Unit
    OnlyWrites (heads code ∷ ops) = ⊥
    OnlyWrites (writes b ∷ ops) = OnlyWrites ops

    run_ops-later :
        (ops : List Op) (w : StatusWriter W) (code : ℕ)
        → 200 ≤ code
        → OnlyWrites ops
        → sent w.inner ≡ some code
        → w.status ≡ code
        → (sent (run_ops ops w).inner ≡ some code) × ((run_ops ops w).status ≡ code)
    run_ops-later [] w code final only is same = (is, same)
    run_ops-later (heads c ∷ ops) w code final only is same = absurd only
    run_ops-later (writes b ∷ ops) w code final only is same =
        run_ops-later ops (write http_writer b w).1 code final only
          (unfold write in http.writes_later b w.inner code is) (unfold write in ground arith)

    -- At most one status, first, and final.
    abbrev pub IsProper : List Op → Type 0
    IsProper [] = Unit
    IsProper (heads code ∷ ops) = (200 ≤ code) × OnlyWrites ops
    IsProper (writes b ∷ ops) = OnlyWrites ops

    abbrev pub status_of : List Op → Option ℕ
    status_of [] = none
    status_of (heads code ∷ ops) = some code
    status_of (writes b ∷ ops) = some 200

    abbrev pub or_nought : Option ℕ → ℕ
    or_nought none = 0
    or_nought (some code) = code

    run_ops-status :
        (ops : List Op) (w : StatusWriter W)
        → IsProper ops
        → sent w.inner ≡ none
        → w.status ≡ 0
        → (sent (run_ops ops w).inner ≡ status_of ops)
          × ((run_ops ops w).status ≡ or_nought (status_of ops))
    run_ops-status [] w proper unsent zero_status = (unsent, zero_status)
    run_ops-status (heads code ∷ ops) w proper unsent zero_status =
        run_ops-later ops (write_header http_writer code w) code proper.0 proper.1
          (unfold write_header in http.heads_first code w.inner proper.0 unsent)
          (unfold write_header in refl)
    run_ops-status (writes b ∷ ops) w proper unsent zero_status =
        run_ops-later ops (write http_writer b w).1 200 (omega arith) proper
          (unfold write in http.writes_first b w.inner unsent) (unfold write in rw zero_status refl)

    -- A handler that sets the status at most once, before it writes, and to a final one. Where
    -- nothing was sent before, the middleware logs the start of the request, with its safe headers,
    -- and then its end, under one identifier; the status at the end is the one that was sent, or 0
    -- where the handler has sent nothing; the duration is the time between the two readings of the
    -- clock.
    pub middleware-status :
        (id : Bytes) (start end : Time) (r : Request) (ops : List Op) (w : W)
        → IsProper ops
        → sent w ≡ none
        → let out : W × List LogLine = middleware http_writer id start end (run_ops ops) r w in
          (sent out.0 ≡ status_of ops)
          × (out.1
              ≡ started id r (header_attrs (codes "request_headers") r.header)
                ∷ completed id r (or_nought (status_of ops)) (sub_time end start)
                ∷ [])
    unfolding middleware
    middleware-status id start end r ops w proper unsent =
        let tagged : W =
          http_writer.set_header (set (http_writer.header w) (codes "X-Request-ID") id) w in
        let (is, same) =
          run_ops-status ops (record { inner = tagged; status = 0 }) proper
            (http.sets (set (http_writer.header w) (codes "X-Request-ID") id) w ∙ unsent) refl in
        (is, rw same refl)
