-- ===== src/Tests/Tokens.antt =====
-- The registry of the tests once its challenge and a token are known, and its sweeps.
use external_mirror_cache.Base.{refl, arith, [], ◌∷◌, codes, bytes_eq}
use external_mirror_cache.Base.Int.{pos}
use external_mirror_cache.Base.Assoc.{lookup}
use external_mirror_cache.Oci.Challenge.{Challenge}
use external_mirror_cache.Oci.Repository.{challenge_key}
use external_mirror_cache.Oci.Tokens.{TokenEntry}
use external_mirror_cache.Oci.Transport.{State, ChallengeEntry, round_trip}
use external_mirror_cache.Oci.Sweeper.{tick, closed, sweep_loop}
use external_mirror_cache.Oci.Swept.{IsUnseen, AreMaps, sweep_loop-IsUnseen}
use external_mirror_cache.Oci.Honest.{IsHonest}
use external_mirror_cache.Oci.Trusted.{trips, sweeps, turns, turns-IsHonest}
use external_mirror_cache.Oci.Tokens
use external_mirror_cache.Tests.Registry.{manifest, network, empty_state}

abbrev challenge : Challenge
challenge = record {
  realm = codes "https://ghcr.io/token";
  service = codes "ghcr.io";
  scope = codes "pull";
}

abbrev known : ChallengeEntry
known = record { challenge = challenge; expiry = pos 9 }

abbrev live : TokenEntry
live = record { token = codes "t"; expiry = pos 9 }

abbrev warm : State
warm = record {
  challenges = (challenge_key (codes "ghcr.io") (codes "org/app"), known) ∷ [];
  tokens = (challenge, live) ∷ [];
  calls = [];
}

abbrev once : State
once = (round_trip network manifest empty_state).1

warm-AreMaps : AreMaps warm
unfolding lookup
warm-AreMaps = record { challenges = (refl, tt); tokens = (refl, tt) }

sweep_loop-IsUnseen_example :
    IsUnseen (pos 7) warm (sweep_loop network (tick ∷ tick ∷ closed ∷ []) warm).1
sweep_loop-IsUnseen_example =
    sweep_loop-IsUnseen network (pos 7) (λ calls. omega arith) (tick ∷ tick ∷ closed ∷ []) warm
      warm-AreMaps

turns-IsHonest_example :
    IsHonest network
      (turns network (trips manifest ∷ sweeps (tick ∷ []) ∷ trips manifest ∷ []) empty_state)
turns-IsHonest_example =
    turns-IsHonest network (trips manifest ∷ sweeps (tick ∷ []) ∷ trips manifest ∷ [])
