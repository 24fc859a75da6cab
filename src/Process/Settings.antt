-- ===== src/Process/Settings.antt =====
-- main.go: `envDefault`, the flags with their defaults, `parseDuration`, `parseTimeoutFlags`,
-- `setupLogging`, `newUpstreamClient` and the first part of `run`, which makes the handler.
use external_mirror_cache.Base.{
  ℕ, ◌/◌, ◌%◌, ◌^◌, Bool, true, false, not, List, [], ◌∷◌, Option, none, some, Bytes, codes, ◌==◌,
  nat_eq, bytes_eq, if◌then◌else◌,
}
use external_mirror_cache.Base.Int.{ℤ, pos, ltb_ℤ}
use external_mirror_cache.Errors.{
  Error, negative_duration, bucket_required, wrapped, Result, ok, err,
}
use external_mirror_cache.Freshness.Evaluate.{Duration}
use external_mirror_cache.Server.Fetch.{Middleware}
use external_mirror_cache.S3.Store.{HttpCache}

-- The flags, as `flag.Parse` leaves them.
pub record Flags : Type 0 where
  pub bucket : Bytes
  pub prefix : Bytes
  pub listen : Bytes
  pub egress_proxy : Bytes
  pub log_level : Bytes
  pub stale_on_connection_error : Bool
  pub stale_on_5xx : Bool
  pub stale_on_any_error : Bool
  pub client_timeout : Bytes
  pub response_header_timeout : Bytes
  pub honor_freshness : Bytes
  pub freshness_cap : Bytes

-- What the set-up calls: time.ParseDuration, strconv.ParseBool, slog.Level.UnmarshalText,
-- config.LoadDefaultConfig and url.Parse by their errors, and os.Stderr.Stat by the mode.
pub record Host : Type 0 where
  pub parse_duration : Bytes → Result ℤ
  pub parse_bool : Bytes → Result Bool
  pub level_error : Bytes → Option Error
  pub config_error : Option Error
  pub url_error : Bytes → Option Error
  pub stderr_mode : Result ℕ

infixl 5 ◌>>=◌ ◌>>◌
unfoldable pub ◌>>=◌ : {A B : Type 0} → Result A → (A → Result B) → Result B
ok a >>= f = f a
err e >>= f = err e

abbrev pub ◌>>◌ : {B : Type 0} → Result (Unit {0}) → Result B → Result B
m >> k = m >>= λ _. k

-- errorutil.Wrapf, where there is an error.
abbrev pub wrapping {ℓ} : {A : Type ℓ} → Bytes → List Bytes → Result A → Result A
wrapping message args (ok a) = ok a
wrapping message args (err e) = err (wrapped message args e)

abbrev pub failing : Bytes → List Bytes → Option Error → Result (Unit {0})
failing message args none = ok tt
failing message args (some e) = err (wrapped message args e)

unfoldable pub env_default : (Bytes → Bytes) → Bytes → Bytes → Bytes
env_default getenv key fallback = let v = getenv key in if not (v == []) then v else fallback

-- The flags of a command line that sets none.
unfoldable pub default_flags : (Bytes → Bytes) → Flags
default_flags getenv = record {
  bucket = env_default getenv (codes "MIRROR_CACHE_BUCKET") [];
  prefix = env_default getenv (codes "MIRROR_CACHE_PREFIX") (codes "cache");
  listen = codes ":8443";
  egress_proxy = [];
  log_level = env_default getenv (codes "MIRROR_CACHE_LOG_LEVEL") (codes "info");
  stale_on_connection_error = true;
  stale_on_5xx = true;
  stale_on_any_error = false;
  client_timeout = env_default getenv (codes "MIRROR_CACHE_CLIENT_TIMEOUT") (codes "120s");
  response_header_timeout =
      env_default getenv (codes "MIRROR_CACHE_RESPONSE_HEADER_TIMEOUT") (codes "5s");
  honor_freshness = env_default getenv (codes "MIRROR_CACHE_HONOR_FRESHNESS") (codes "false");
  freshness_cap = env_default getenv (codes "MIRROR_CACHE_FRESHNESS_CAP") (codes "168h");
}

-- os.ModeCharDevice is the bit 21.
unfoldable pub is_tty : Result ℕ → Bool
is_tty (err e) = false
is_tty (ok mode) = mode / 2 ^ 21 % 2 == 1

-- The settings of the upstream client: the proxy, and the two timeouts.
pub record Client : Type 0 where
  pub proxy : Option Bytes
  pub response_header_timeout : Duration
  pub timeout : Duration

-- What `run` serves with, and whether it logs as text.
pub record Server : Type 0 where
  pub text_log : Bool
  pub client : Client
  pub cache : HttpCache
  pub middleware : Middleware

unfoldable pub not_negative : Bytes → Bytes → ℤ → Result Duration
not_negative s name d =
    if ltb_ℤ d (pos 0)
    then err (wrapped (codes "invalid --%s value %q") (name ∷ s ∷ []) negative_duration)
    else ok d

unfoldable pub require_bucket : Bytes → Result (Unit {0})
require_bucket name = if name == [] then err bucket_required else ok tt

abbrev pub handler_of : Flags → Bool → Duration → Middleware
handler_of f honor_freshness freshness_cap = record {
  fallback = record {
    on_connection_error = f.stale_on_connection_error;
    on_5xx = f.stale_on_5xx;
    on_any_error = f.stale_on_any_error;
  };
  honor_freshness = honor_freshness;
  freshness_cap = freshness_cap;
}

module _ (host : Host) where
  unfoldable pub parse_duration : Bytes → Bytes → Result Duration
  parse_duration s name = do
    d ← wrapping (codes "invalid --%s value %q") (name ∷ s ∷ []) (host.parse_duration s)
    not_negative s name d

  unfoldable pub parse_timeout_flags : Flags → Result (Duration × Duration)
  parse_timeout_flags f = do
    client ← parse_duration f.client_timeout (codes "client-timeout")
    response_header ← parse_duration f.response_header_timeout (codes "response-header-timeout")
    ok (client, response_header)

  unfoldable pub setup_logging : Bytes → Result Bool
  setup_logging level = do
    failing (codes "invalid log level %q") (level ∷ []) (host.level_error level)
    ok (is_tty host.stderr_mode)

  unfoldable pub upstream_proxy : Bytes → Result (Option Bytes)
  upstream_proxy egress = if egress == [] then ok none else do
    failing (codes "invalid --egress-proxy URL") [] (host.url_error egress)
    ok (some egress)

  unfoldable pub new_upstream_client : Flags → Duration × Duration → Result Client
  new_upstream_client f timeouts = do
    proxy ← upstream_proxy f.egress_proxy
    ok (record { proxy = proxy; response_header_timeout = timeouts.1; timeout = timeouts.0 })

  -- `run`, up to the listener.
  unfoldable pub configure : Flags → Result Server
  configure f = do
    text_log ← setup_logging f.log_level
    require_bucket f.bucket
    timeouts ← parse_timeout_flags f
    honor_freshness ←
        wrapping (codes "invalid --honor-freshness value %q") (f.honor_freshness ∷ [])
          (host.parse_bool f.honor_freshness)
    freshness_cap ← parse_duration f.freshness_cap (codes "freshness-cap")
    failing (codes "load AWS config") [] host.config_error
    client ← new_upstream_client f timeouts
    ok (record {
      text_log = text_log;
      client = client;
      cache = record { bucket = f.bucket; prefix = f.prefix };
      middleware = handler_of f honor_freshness freshness_cap;
    })
