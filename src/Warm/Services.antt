-- ===== src/Warm/Services.antt =====
-- `s3HTTPCache` as the cache of the handler: what the bucket is after the calls of a history, and so
-- what each call answers.
use external_mirror_cache.Base.{[], ◌∷◌, Bytes, Option}
use external_mirror_cache.Go.Strings.{Std}
use external_mirror_cache.Errors.{Error, Result}
use external_mirror_cache.Freshness.Evaluate.{Time}
use external_mirror_cache.Server.World.{
  Services, History, Event, stored, touched, Response, UpstreamRequest,
}
use external_mirror_cache.S3.Metadata.{Json}
use external_mirror_cache.S3.Api.{Api}
use external_mirror_cache.S3.Store.{HttpCache, head, put, touch, get_presigned_url}

-- What is left of the services: the library, the network and the clock.
pub record Outside : Type 0 where
  pub std : Std
  pub new_request_error : Bytes → Option Error
  pub client_do : History → UpstreamRequest → Result Response
  pub time_now : History → Time

module _ {State : Type 0} (api : Api State) (j : Json) (c : HttpCache) where
  abbrev pub after_event : Event → State → State
  after_event (stored key headers body) s = (put api j c key headers body s).1
  after_event (touched key entry headers) s = (touch api j c key entry headers s).1
  after_event _ s = s

  -- The calls of a history change the state in their order, the oldest first.
  unfoldable pub state_after : State → History → State
  state_after initial [] = initial
  state_after initial (e ∷ h) = after_event e (state_after initial h)

  abbrev pub over_s3 : State → Outside → Services
  over_s3 initial o = record {
    std = o.std;
    head = λ h key. head api j c key (state_after initial h);
    get_presigned_url = λ h key. get_presigned_url api j c key (state_after initial h);
    put = λ h key headers body. (put api j c key headers body (state_after initial h)).0;
    touch = λ h key entry headers. (touch api j c key entry headers (state_after initial h)).0;
    new_request_error = o.new_request_error;
    client_do = o.client_do;
    time_now = o.time_now;
  }
