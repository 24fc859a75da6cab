-- ===== src/Server/World.antt =====
-- What the handler of server.go talks to: the cache, the upstream client, the clock and the log.
-- An action runs on the history of all calls made so far, newest first, and each answer may
-- depend on the whole of it.
use external_mirror_cache.Base.{ℕ, List, ◌∷◌, Bytes, Option}
use external_mirror_cache.Go.Strings.{Std}
use external_mirror_cache.Go.Header.{Header}
use external_mirror_cache.Errors.{Error, Result}
use external_mirror_cache.Cache.{CacheKey, CachedEntry}
use external_mirror_cache.Freshness.Evaluate.{Time}

-- The request to upstream: its method is GET, its URL the text that is parsed again.
pub record UpstreamRequest : Type 0 where
  pub url : Bytes
  pub header : Header

pub record Response : Type 0 where
  pub status : ℕ
  pub header : Header
  pub body : Bytes

-- The "action" of a log line.
pub data Action : Type 0 where
  fresh stale error revalidated refreshed cached : Action

pub data Event : Type 0 where
  headed : CacheKey → Event
  presigned : CacheKey → Event
  stored : CacheKey → Header → Bytes → Event
  touched : CacheKey → CachedEntry → Header → Event
  sent : UpstreamRequest → Event
  clock : Event
  decided : Action → Event

abbrev pub History : Type 0
History = List Event

pub record Services : Type 0 where
  pub std : Std
  -- httpCache
  pub head : History → CacheKey → Result (Option CachedEntry)
  pub get_presigned_url : History → CacheKey → Result Bytes
  pub put : History → CacheKey → Header → Bytes → Result (Unit {0})
  pub touch : History → CacheKey → CachedEntry → Header → Result (Unit {0})
  -- http.NewRequestWithContext, at the text of a URL
  pub new_request_error : Bytes → Option Error
  -- http.Client.Do and time.Now
  pub client_do : History → UpstreamRequest → Result Response
  pub time_now : History → Time

abbrev pub M {ℓ} : Type ℓ → Type ℓ
M A = History → A × History

abbrev pub pure {ℓ} : {A : Type ℓ} → A → M A
pure a h = (a, h)

infixl 5 ◌>>=◌ ◌>>◌
abbrev pub ◌>>=◌ {ℓ κ} : {A : Type ℓ} {B : Type κ} → M A → (A → M B) → M B
◌>>=◌ m f h = f (m h).0 (m h).1

abbrev pub ◌>>◌ {ℓ} : {B : Type ℓ} → M (Unit {0}) → M B → M B
m >> k = m >>= λ _. k

-- A call that is answered from the history before it.
abbrev pub call {ℓ} : {A : Type ℓ} → Event → (History → A) → M A
call e answer h = (answer h, e ∷ h)

abbrev pub decide : Action → M (Unit {0})
decide a = call (decided a) (λ h. tt)
