-- ===== src/Tests/Process.antt =====
-- Runs of the program: with the flags of the environment, and with the cap at zero.
use external_mirror_cache.Base.{
  In, ◌≡◌, ◌↔◌, refl, inl, true, false, [], ◌∷◌, none, some, Bytes, codes, ◌==◌, bytes_eq,
  bytes_beq, if◌then◌else◌,
}
use external_mirror_cache.Base.Int.{pos, negsuc}
use external_mirror_cache.Errors.{Error, foreign, ok, err}
use external_mirror_cache.Freshness.Evaluate.{evaluate}
use external_mirror_cache.Process.Settings.{
  Flags, Host, Server, env_default, default_flags, configure, not_negative, parse_duration,
  parse_timeout_flags, setup_logging, is_tty, upstream_proxy, new_upstream_client, require_bucket,
  ◌>>=◌,
}
use external_mirror_cache.Process.Configured.{IsConfigured, configure-ok_iff}
use external_mirror_cache.Process.Run.{
  Sockets, signalled, Runtime, listens, serves, listener_of, get_listener, run_server, run_on,
  run_with, run, exit_status,
}
use external_mirror_cache.Process.Served.{IsRun, run-IsRun, run-cap_zero}
use external_mirror_cache.Tests.Fixture.{std, stored_headers, stored_at, soon}
use external_mirror_cache.Tests.Headers.{accept_keys}

abbrev unknown : Error
unknown = foreign false none (codes "time: invalid duration")

abbrev host : Host
host = record {
  parse_duration = λ s.
      if s == codes "120s"
      then ok (pos 120000000000)
      else if s == codes "5s"
      then ok (pos 5000000000)
      else if s == codes "0"
      then ok (pos 0)
      else if s == codes "-1ns"
      then ok (negsuc 0)
      else err unknown;
  parse_bool = λ s.
      if s == codes "false" then ok false else if s == codes "true" then ok true else err unknown;
  level_error = λ s. if s == codes "info" then none else some unknown;
  config_error = none;
  url_error = λ s. none;
  stderr_mode = ok 2097152;
}

abbrev sockets : Sockets
sockets = record { activated = ok []; listen = λ address. ok 7 }

abbrev runtime : Runtime
runtime = record { is_server_closed = λ e. false; ending = λ server l. signalled (some unknown) }

-- The environment names the bucket and sets the cap to zero.
abbrev getenv : Bytes → Bytes
getenv key =
    if key == codes "MIRROR_CACHE_BUCKET"
    then codes "b"
    else if key == codes "MIRROR_CACHE_FRESHNESS_CAP"
    then codes "0"
    else []

abbrev flags : Flags
flags = record {
  bucket = codes "b";
  prefix = codes "cache";
  listen = codes ":8443";
  egress_proxy = [];
  log_level = codes "info";
  stale_on_connection_error = true;
  stale_on_5xx = true;
  stale_on_any_error = false;
  client_timeout = codes "120s";
  response_header_timeout = codes "5s";
  honor_freshness = codes "false";
  freshness_cap = codes "0";
}

flags_of_getenv : default_flags getenv ≡ flags
unfolding default_flags env_default bytes_beq
flags_of_getenv = refl

abbrev server : Server
server = record {
  text_log = true;
  client = record {
    proxy = none;
    response_header_timeout = pos 5000000000;
    timeout = pos 120000000000;
  };
  cache = record { bucket = codes "b"; prefix = codes "cache" };
  middleware = record {
    fallback = record { on_connection_error = true; on_5xx = true; on_any_error = false };
    honor_freshness = false;
    freshness_cap = pos 0;
  };
}

flags_served :
    run host sockets runtime flags ≡ (ok tt, serves server 7 ∷ listens (codes ":8443") ∷ [])
unfolding run run_with run_on run_server get_listener listener_of configure not_negative
    parse_duration parse_timeout_flags setup_logging is_tty upstream_proxy new_upstream_client
    require_bucket ◌>>=◌ bytes_beq
flags_served = refl

-- A negative timeout is refused.
run_negative :
    exit_status (run host sockets runtime (record flags { client_timeout = codes "-1ns" })).0 ≡ 1
unfolding exit_status run run_with configure not_negative parse_duration parse_timeout_flags
    setup_logging require_bucket ◌>>=◌ bytes_beq
run_negative = refl

configure-ok_iff_example : (configure host flags ≡ ok server) ↔ IsConfigured host flags server
configure-ok_iff_example = configure-ok_iff host flags server

run-IsRun_example : IsRun host sockets runtime flags (run host sockets runtime flags)
run-IsRun_example = run-IsRun host sockets runtime flags

run_serves : In (serves server 7) (run host sockets runtime flags).1
run_serves = rw flags_served (inl refl)

cap_read : host.parse_duration flags.freshness_cap ≡ ok (pos 0)
unfolding bytes_beq
cap_read = refl

run-cap_zero_example :
    (evaluate std stored_headers stored_at soon server.middleware.freshness_cap accept_keys).fresh
    ≡ false
run-cap_zero_example =
    run-cap_zero host sockets runtime flags server 7 std stored_headers stored_at soon accept_keys
      cap_read run_serves
