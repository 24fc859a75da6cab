-- ===== src/Tests/Reqlog.antt =====
-- A redirect that is logged, and a header with a secret.
use external_mirror_cache.Base.{ℕ, ◌≡◌, refl, arith, [], ◌∷◌, Option, none, some, codes, List}
use external_mirror_cache.Go.Header.{Header, set, canonical_key}
use external_mirror_cache.Base.Assoc.{lookup}
use external_mirror_cache.Base.{false, any, ◌==◌, bytes_eq, bytes_beq}
use external_mirror_cache.Freshness.Evaluate.{sub_time}
use external_mirror_cache.Reqlog.Headers.{safe_headers, header_attrs}
use external_mirror_cache.Reqlog.Safe.{shown, header_attrs-set}
use external_mirror_cache.Reqlog.Writer.{
  ResponseWriter, Request, LogLine, started, completed, middleware,
}
use external_mirror_cache.Reqlog.Logged.{heads, writes, run_ops, IsHttp, middleware-status}
use external_mirror_cache.Tests.Fixture.{soon, stored_at}

-- A reply in the making: its header, and its status once that is sent.
record Draft : Type 0 where
  header : Header
  status : Option ℕ

abbrev or_else : ℕ → Option ℕ → Option ℕ
or_else code none = some code
or_else code (some sent) = some sent

abbrev draft_writer : ResponseWriter Draft
draft_writer = record {
  header = λ w. w.header;
  set_header = λ h w. record w { header = h };
  write_header = λ code w. record w { status = or_else code w.status };
  write = λ b w. ((3, none), record w { status = or_else 200 w.status });
}

abbrev sent : Draft → Option ℕ
sent w = w.status

draft_writer-IsHttp : IsHttp draft_writer sent
draft_writer-IsHttp = record {
  heads_first = λ code w final e. rw e refl;
  writes_first = λ b w e. rw e refl;
  writes_later = λ b w code e. rw e refl;
  sets = λ h w. refl;
}

abbrev secret : Header
secret =
    (codes "Accept", codes "json" ∷ codes "text" ∷ [])
    ∷ (codes "Authorization", codes "Bearer s" ∷ [])
    ∷ []

abbrev request : Request
request = record {
  method = codes "GET";
  path = codes "/go.dev/dl/a";
  remote_addr = codes "10.0.0.1:1234";
  header = secret;
}

abbrev fresh_draft : Draft
fresh_draft = record { header = []; status = none }

cookie_unsafe : any (λ n. n == canonical_key (codes "cookie")) safe_headers ≡ false
unfolding canonical_key bytes_beq
cookie_unsafe = refl

header_attrs-set_example :
    (header_attrs (codes "request_headers") (set secret (codes "cookie") (codes "id=1"))
      ≡ header_attrs (codes "request_headers") secret)
    × (lookup (codes "Accept") (header_attrs (codes "request_headers") secret).attrs
        ≡ shown safe_headers secret (codes "Accept"))
header_attrs-set_example =
    header_attrs-set (codes "request_headers") secret (codes "cookie") (codes "id=1")
      (codes "Accept") cookie_unsafe

middleware-status_example :
    let out : Draft × List LogLine =
      middleware draft_writer
        (codes "0123456789abcdef")
        stored_at
        soon
        (run_ops draft_writer (heads 303 ∷ writes (codes "See Other") ∷ []))
        request
        fresh_draft in
    (sent out.0 ≡ some 303)
    × (out.1
        ≡ started (codes "0123456789abcdef") request (header_attrs (codes "request_headers") secret)
          ∷ completed (codes "0123456789abcdef") request 303 (sub_time soon stored_at)
          ∷ [])
middleware-status_example =
    middleware-status draft_writer sent draft_writer-IsHttp (codes "0123456789abcdef") stored_at
      soon request (heads 303 ∷ writes (codes "See Other") ∷ []) fresh_draft (omega arith, tt) refl
