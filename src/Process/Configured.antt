-- ===== src/Process/Configured.antt =====
-- Which settings `run` accepts, and what it makes of them.
use external_mirror_cache.Base.{
  ◌≡◌, ◌≢◌, ◌↔◌, ◌⊎◌, inl, inr, refl, sym, subst, arith, Bool, false, Bool-cases, ◌==◌, bytes_eq,
  bytes_beq, bytes_beq_iff, List, [], ◌∷◌, Option, none, some, Bytes, codes, Option-cases,
}
use external_mirror_cache.Base.Int.{ℤ, pos, ltb_ℤ, ◌≤ℤ◌}
use external_mirror_cache.Errors.{Error, Result, ok, err, ok-injective}
use external_mirror_cache.Freshness.Evaluate.{Duration}
use external_mirror_cache.Process.Settings.{
  Flags, Host, Client, Server, ◌>>=◌, wrapping, failing, is_tty, not_negative, parse_duration,
  parse_timeout_flags, setup_logging, upstream_proxy, new_upstream_client, require_bucket,
  configure,
}

pub bind-ok :
    {A B : Type 0} (m : Result A) (f : A → Result B) (b : B)
    → (m >>= f) ≡ ok b
    → (a : A) × (m ≡ ok a) × (f a ≡ ok b)
unfolding ◌>>=◌
bind-ok (ok a) f b e = (a, refl, e)
bind-ok (err x) f b e = absurd (cc)

-- The same, for a chain of them.
pub bind-then :
    {A B C : Type 0} {m : Result A} {f : A → Result B} (b : B)
    → (m >>= f) ≡ ok b
    → ((a : A) → m ≡ ok a → f a ≡ ok b → C)
    → C
bind-then {m = m} {f = f} b e k = let (a, e', rest) = bind-ok m f b e in k a e' rest

wrapping-ok :
    {A : Type 0} (message : Bytes) (args : List Bytes) (r : Result A) (a : A)
    → wrapping message args r ≡ ok a
    → r ≡ ok a
wrapping-ok message args (ok b) a e = e
wrapping-ok message args (err x) a e = absurd (cc)

failing-ok :
    (message : Bytes) (args : List Bytes) (o : Option Error)
    → failing message args o ≡ ok tt
    → o ≡ none
failing-ok message args none e = refl
failing-ok message args (some x) e = absurd (cc)

module _ (host : Host) where
  -- A text that is read as a duration that is not negative.
  pub record IsDuration (s : Bytes) (d : Duration) : Type 0 where
    pub read : host.parse_duration s ≡ ok d
    pub not_below : pos 0 ≤ℤ d

  not_negative-ok :
      (s name : Bytes) (d r : ℤ) → not_negative s name d ≡ ok r → (d ≡ r) × (pos 0 ≤ℤ d)
  unfolding not_negative
  not_negative-ok s name d r e = elim (Bool-cases (ltb_ℤ d (pos 0))) [
    | inl below ↦ absurd (ground arith)
    | inr least ↦ (ground arith, ground arith)
  ]

  parse_duration-ok :
      (s name : Bytes) (d : Duration) → parse_duration host s name ≡ ok d → IsDuration s d
  unfolding parse_duration
  parse_duration-ok s name d e =
      let (r, read, rest) = bind-ok _ _ d e in
      let (same, least) = not_negative-ok s name r d rest in
      let read' = wrapping-ok _ _ (host.parse_duration s) r read in
      record { read = cc; not_below = ground arith }

  parse_duration-IsDuration :
      (s name : Bytes) (d : Duration) → IsDuration s d → parse_duration host s name ≡ ok d
  unfolding parse_duration not_negative ◌>>=◌
  parse_duration-IsDuration s name d i = let least = i.not_below in rw (i.read) (ground arith)

  -- The proxy of a flag: none for the empty one, and else a URL.
  abbrev pub IsProxy : Bytes → Option Bytes → Type 0
  IsProxy egress proxy =
      ((egress ≡ []) × (proxy ≡ none))
      ⊎ ((egress ≢ []) × (host.url_error egress ≡ none) × (proxy ≡ some egress))

  upstream_proxy-IsProxy_iff :
      (egress : Bytes) (proxy : Option Bytes)
      → (upstream_proxy host egress ≡ ok proxy) ↔ IsProxy egress proxy
  unfolding upstream_proxy bytes_beq ◌>>=◌
  upstream_proxy-IsProxy_iff [] proxy = ground arith
  upstream_proxy-IsProxy_iff (b ∷ bs) proxy = elim (Option-cases (host.url_error (b ∷ bs))) [
    | inl fine ↦ rw fine (ground arith)
    | inr (e, bad) ↦ rw bad (ground arith)
  ]

  -- The flags are accepted, and the server is made of them.
  pub record IsConfigured (f : Flags) (server : Server) : Type 0 where
    pub level : host.level_error f.log_level ≡ none
    pub text_log : server.text_log ≡ is_tty host.stderr_mode
    pub has_bucket : f.bucket ≢ []
    pub bucket : server.cache.bucket ≡ f.bucket
    pub prefix : server.cache.prefix ≡ f.prefix
    pub client_timeout : IsDuration f.client_timeout server.client.timeout
    pub response_header_timeout :
        IsDuration f.response_header_timeout server.client.response_header_timeout
    pub honor_freshness : host.parse_bool f.honor_freshness ≡ ok server.middleware.honor_freshness
    pub freshness_cap : IsDuration f.freshness_cap server.middleware.freshness_cap
    pub aws : host.config_error ≡ none
    pub proxy : IsProxy f.egress_proxy server.client.proxy
    pub on_connection_error :
        server.middleware.fallback.on_connection_error ≡ f.stale_on_connection_error
    pub on_5xx : server.middleware.fallback.on_5xx ≡ f.stale_on_5xx
    pub on_any_error : server.middleware.fallback.on_any_error ≡ f.stale_on_any_error

  module _ (f : Flags) (server : Server) where
    configure-IsConfigured : IsConfigured f server → configure host f ≡ ok server
    unfolding configure setup_logging require_bucket parse_timeout_flags new_upstream_client ◌>>=◌
    configure-IsConfigured i =
        let named : (f.bucket == []) ≡ false =
          ground (arith, bytes_beq_iff f.bucket [], i.has_bucket) in
        rw
          (
            i.level,
            named,
            parse_duration-IsDuration f.client_timeout (codes "client-timeout") _ i.client_timeout,
            parse_duration-IsDuration f.response_header_timeout (codes "response-header-timeout") _
                i.response_header_timeout,
            i.honor_freshness,
            parse_duration-IsDuration f.freshness_cap (codes "freshness-cap") _ i.freshness_cap,
            (upstream_proxy-IsProxy_iff f.egress_proxy server.client.proxy).1 i.proxy,
            i.aws,
          )
          (let e = i.text_log in
            let b = i.bucket in
            let p = i.prefix in
            let x = i.on_connection_error in let y = i.on_5xx in let z = i.on_any_error in cc)

    setup_logging-ok :
        (text_log : Bool)
        → setup_logging host f.log_level ≡ ok text_log
        → (host.level_error f.log_level ≡ none) × (text_log ≡ is_tty host.stderr_mode)
    unfolding setup_logging
    setup_logging-ok text_log e =
        let (u, fine, rest) = bind-ok _ _ text_log e in
        (failing-ok _ _ (host.level_error f.log_level) fine, cc)

    require_bucket-ok : (name : Bytes) → require_bucket name ≡ ok tt → name ≢ []
    unfolding require_bucket bytes_beq
    require_bucket-ok [] e = absurd (cc)
    require_bucket-ok (b ∷ bs) e = cc

    new_upstream_client-ok :
        (timeouts : Duration × Duration) (client : Client)
        → new_upstream_client host f timeouts ≡ ok client
        → IsProxy f.egress_proxy client.proxy
          × (client.timeout ≡ timeouts.0)
          × (client.response_header_timeout ≡ timeouts.1)
    unfolding new_upstream_client
    new_upstream_client-ok timeouts client e =
        let (proxy, good, rest) = bind-ok _ _ client e in
        let i = (upstream_proxy-IsProxy_iff f.egress_proxy proxy).0 good in ground (arith, i, rest)

    parse_timeout_flags-ok :
        (timeouts : Duration × Duration)
        → parse_timeout_flags host f ≡ ok timeouts
        → IsDuration f.client_timeout timeouts.0 × IsDuration f.response_header_timeout timeouts.1
    unfolding parse_timeout_flags
    parse_timeout_flags-ok timeouts e =
        let (client, good, rest) = bind-ok _ _ timeouts e in
        let (header, good', rest') = bind-ok _ _ timeouts rest in
        subst
          (λ (t : Duration × Duration).
            IsDuration f.client_timeout t.0 × IsDuration f.response_header_timeout t.1)
          (ok-injective _ timeouts rest')
          (parse_duration-ok _ _ client good, parse_duration-ok _ _ header good')

    -- The set-up accepts the flags, with a server, exactly where the log level is one, a bucket is
    -- named, the three durations can be read and are not negative, the setting of freshness can be
    -- read, the configuration of AWS loads, and the proxy is empty or a URL; the server then has
    -- these very values.
    pub configure-ok_iff : (configure host f ≡ ok server) ↔ IsConfigured f server
    unfolding configure
    configure-ok_iff = (
      λ e. bind-then server e λ text_log e1 r1. bind-then server r1 λ named e2 r2.
          bind-then server r2 λ timeouts e3 r3. bind-then server r3 λ honor e4 r4.
            bind-then server r4 λ cap e5 r5. bind-then server r5 λ loaded e6 r6.
              bind-then server r6 λ client e7 r7.
                let l = setup_logging-ok text_log e1 in
                let t = parse_timeout_flags-ok timeouts e3 in
                let c = new_upstream_client-ok timeouts client e7 in
                subst (IsConfigured f) (ok-injective _ server r7) (record {
                  level = l.0;
                  text_log = l.1;
                  has_bucket = require_bucket-ok f.bucket e2;
                  bucket = refl;
                  prefix = refl;
                  client_timeout = subst (IsDuration f.client_timeout) (sym c.1) t.0;
                  response_header_timeout =
                      subst (IsDuration f.response_header_timeout) (sym c.2) t.1;
                  honor_freshness = wrapping-ok _ _ (host.parse_bool f.honor_freshness) honor e4;
                  freshness_cap = parse_duration-ok _ _ cap e5;
                  aws = failing-ok _ _ host.config_error e6;
                  proxy = c.0;
                  on_connection_error = refl;
                  on_5xx = refl;
                  on_any_error = refl;
                }),
      configure-IsConfigured,
    )
