-- ===== src/Freshness/Evaluate.antt =====
-- internal/freshness/freshness.go: `Decision`, `Evaluate`, `varySatisfied`, `declaredLifetime`.
-- A time is an integer count of nanoseconds since Go's zero time.
use external_mirror_cache.Base.{
  Bool, true, false, not, ◌||◌, List, [], ◌∷◌, none, some, Bytes, codes, ◌==◌, bytes_eq, nat_eq,
  if◌then◌else◌, any, all,
}
use external_mirror_cache.Base.Int.{ℤ, pos, negsuc, ltb_ℤ, leb_ℤ, ◌-ℤ◌, add64, max_int64}
use external_mirror_cache.Go.Strings.{Std, split, trim_space, equal_fold}
use external_mirror_cache.Go.Header.{Header, values}
use external_mirror_cache.Freshness.Directives.{CcDirectives, parse_cache_control, parse_age}

abbrev pub Time : Type 0
Time = ℤ

-- int64 nanoseconds
abbrev pub Duration : Type 0
Duration = ℤ

unfoldable pub is_zero_time : Time → Bool
is_zero_time (pos n) = n == 0
is_zero_time (negsuc n) = false

abbrev pub saturate : ℤ → Duration
saturate a =
    if ltb_ℤ (pos max_int64) a
    then pos max_int64
    else if ltb_ℤ a (negsuc max_int64)
    then negsuc max_int64
    else a

-- Time.Sub, which stops at the ends of int64.
unfoldable pub sub_time : Time → Time → Duration
unfolding ◌-ℤ◌
sub_time t u = saturate (t -ℤ u)

abbrev pub max_ℤ : ℤ → ℤ → ℤ
max_ℤ a b = if ltb_ℤ a b then b else a

pub data Reason : Type 0 where
  within_lifetime no_cache vary_mismatch no_lifetime : Reason
  invalid_age no_stored_at ttl_expired cap_expired : Reason

pub record Decision : Type 0 where
  pub fresh : Bool
  pub reason : Reason
  pub age : Duration
  pub declared_lifetime : Duration
  pub resident : Duration

-- `Decision{Reason: r}`
abbrev pub rejected : Reason → Decision
rejected r = record {
  fresh = false;
  reason = r;
  age = pos 0;
  declared_lifetime = pos 0;
  resident = pos 0;
}

-- One name of a Vary value: skipped, or encoded by the key.
unfoldable pub vary_name_ok : Std → List Bytes → Bytes → Bool
unfolding trim_space equal_fold
vary_name_ok g key_headers raw =
    let name = trim_space g raw in
    if name == [] || equal_fold g name (codes "Accept-Encoding")
    then true
    else if name == codes "*" || not (any (λ k. equal_fold g k name) key_headers)
    then false
    else true

unfoldable pub vary_satisfied : Std → List Bytes → List Bytes → Bool
unfolding vary_name_ok split
vary_satisfied g vary_values key_headers =
    all (λ value. all (vary_name_ok g key_headers) (split b',' value)) vary_values

-- The Date header where there is exactly one and it parses, else storedAt.
unfoldable pub anchor : Std → List Bytes → Time → Time
anchor g (v ∷ []) stored_at = elim (g.parse_time v) [ none ↦ stored_at | some date ↦ date ]
anchor g _ stored_at = stored_at

unfoldable pub expires_lifetime : Std → List Bytes → List Bytes → Time → Duration × Bool
unfolding anchor sub_time
expires_lifetime g (v ∷ []) dates stored_at = elim (g.parse_time v) [
  | none ↦ (pos 0, false)
  | some expires ↦ (sub_time expires (anchor g dates stored_at), true)
]
expires_lifetime g _ dates stored_at = (pos 0, false)

unfoldable pub declared_lifetime : Std → CcDirectives → Header → Time → Duration × Bool
declared_lifetime g directives stored stored_at =
    if directives.s_max_age.seen
    then (directives.s_max_age.d, directives.s_max_age.ok)
    else if directives.max_age.seen
    then (directives.max_age.d, directives.max_age.ok)
    else expires_lifetime g (values stored (codes "Expires")) (values stored (codes "Date"))
        stored_at

-- The two axes, once every header is understood.
unfoldable pub judge : Duration → Duration → Duration → Duration → Decision
judge lifetime stored_age resident lifetime_cap =
    let age = add64 resident stored_age in
    let d : Bool → Reason → Decision = λ verdict r. record {
      fresh = verdict;
      reason = r;
      age = age;
      declared_lifetime = lifetime;
      resident = resident;
    } in
    if leb_ℤ lifetime age
    then d false ttl_expired
    else if leb_ℤ lifetime_cap resident
    then d false cap_expired
    else d true within_lifetime

unfoldable pub evaluate : Std → Header → Time → Time → Duration → List Bytes → Decision
evaluate g stored stored_at now lifetime_cap key_headers =
    let directives = parse_cache_control g (values stored (codes "Cache-Control")) in
    let lifetime = declared_lifetime g directives stored stored_at in
    let stored_age = parse_age (values stored (codes "Age")) in
    if is_zero_time stored_at
    then rejected no_stored_at
    else if directives.no_cache
    then rejected no_cache
    else if not (vary_satisfied g (values stored (codes "Vary")) key_headers)
    then rejected vary_mismatch
    else if not lifetime.1
    then rejected no_lifetime
    else if not stored_age.1
    then rejected invalid_age
    else judge lifetime.0 stored_age.0 (max_ℤ (sub_time now stored_at) (pos 0)) lifetime_cap
