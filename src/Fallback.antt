-- ===== src/Fallback.antt =====
-- fallback.go: when stale content may be served.
use external_mirror_cache.Base.{
  ℕ, Bool, true, false, not, ◌&&◌, ◌||◌, Option, none, some, ltb, leb, ◌==◌, nat_eq, if◌then◌else◌,
}
use external_mirror_cache.Errors.{Error, is_connection_error}

pub record FallbackPolicy : Type 0 where
  pub on_connection_error : Bool
  pub on_5xx : Bool
  pub on_any_error : Bool

abbrev pub is_some {ℓ} : {A : Type ℓ} → Option A → Bool
is_some none = false
is_some (some a) = true

abbrev pub connection_error : Option Error → Bool
connection_error none = false
connection_error (some e) = is_connection_error e

unfoldable pub should_fallback : FallbackPolicy → Option Error → ℕ → Bool
should_fallback p e status =
    if p.on_any_error && (is_some e || (not (status == 200) && not (status == 304)))
    then true
    else if is_some e && p.on_connection_error && connection_error e
    then true
    else if leb 500 status && ltb status 600 && p.on_5xx
    then true
    else false
