-- ===== src/Oci/Sweeper.antt =====
-- oci_auth.go: `sweepChallenges`, `tokenCache.sweep`, `sweepLoop` and `Close`.
use external_mirror_cache.Base.{List, [], ◌∷◌}
use external_mirror_cache.Oci.Tokens.{sweep}
use external_mirror_cache.Oci.Transport.{Network, M, pure, ◌>>=◌, ◌>>◌, call, clock}

-- What the loop receives: a tick, or the end of the channel that `Close` closes.
pub data Signal : Type 0 where
  tick closed : Signal

module _ (net : Network) where
  unfoldable pub sweep_challenges : M (Unit {0})
  sweep_challenges = do
    now ← call clock net.time_now
    λ s. (tt, record s { challenges = sweep (λ e. e.expiry) now s.challenges })

  unfoldable pub sweep_tokens : M (Unit {0})
  sweep_tokens = do
    now ← call clock net.time_now
    λ s. (tt, record s { tokens = sweep (λ e. e.expiry) now s.tokens })

  -- Without a signal the loop waits.
  unfoldable pub sweep_loop : List Signal → M (Unit {0})
  sweep_loop [] = pure tt
  sweep_loop (closed ∷ signals) = pure tt
  sweep_loop (tick ∷ signals) = do sweep_challenges; sweep_tokens; sweep_loop signals
