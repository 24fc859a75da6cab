-- ===== src/Reqlog/Writer.antt =====
-- internal/reqlog/middleware.go: `statusWriter` and `Middleware`. The http.ResponseWriter that is
-- wrapped, the handler, the identifier of the request and the clock are parameters.
use external_mirror_cache.Base.{
  ℕ, List, [], ◌∷◌, Option, none, some, Bytes, codes, ◌==◌, nat_eq, if◌then◌else◌,
}
use external_mirror_cache.Go.Header.{Header, set}
use external_mirror_cache.Errors.{Error, wrapped}
use external_mirror_cache.Freshness.Evaluate.{Time, Duration, sub_time}
use external_mirror_cache.Reqlog.Headers.{Group, header_attrs}

-- http.ResponseWriter: a write answers the number of bytes written, and an error or nil.
pub record ResponseWriter (W : Type 0) : Type 0 where
  pub header : W → Header
  pub set_header : Header → W → W
  pub write_header : ℕ → W → W
  pub write : Bytes → W → (ℕ × Option Error) × W

pub record StatusWriter (W : Type 0) : Type 0 where
  pub inner : W
  pub status : ℕ

-- The request, as far as it is logged.
pub record Request : Type 0 where
  pub method : Bytes
  pub path : Bytes
  pub remote_addr : Bytes
  pub header : Header

pub data LogLine : Type 0 where
  started : Bytes → Request → Group → LogLine
  completed : Bytes → Request → ℕ → Duration → LogLine

abbrev wrap_write : ℕ × Option Error → ℕ × Option Error
wrap_write (n, none) = (n, none)
wrap_write (n, some e) = (n, some (wrapped (codes "write response") [] e))

module _ {W : Type 0} (http_writer : ResponseWriter W) where
  unfoldable pub write_header : ℕ → StatusWriter W → StatusWriter W
  write_header code w = record { inner = http_writer.write_header code w.inner; status = code }

  unfoldable pub write : Bytes → StatusWriter W → (ℕ × Option Error) × StatusWriter W
  write b w =
      let done = http_writer.write b w.inner in
      (
        wrap_write done.0,
        record { inner = done.1; status = if w.status == 0 then 200 else w.status },
      )

  -- The handler runs between two readings of the clock.
  unfoldable pub middleware :
      Bytes → Time → Time → (StatusWriter W → StatusWriter W) → Request → W → W × List LogLine
  middleware id start end next r w =
      let tagged =
        http_writer.set_header (set (http_writer.header w) (codes "X-Request-ID") id) w in
      let sw = next (record { inner = tagged; status = 0 }) in
      (
        sw.inner,
        started id r (header_attrs (codes "request_headers") r.header)
            ∷ completed id r sw.status (sub_time end start)
            ∷ [],
      )
