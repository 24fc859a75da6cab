-- ===== src/Process/Served.antt =====
-- What `run` does, as a whole.
use external_mirror_cache.Base.{
  In, ℕ, ◌≡◌, ◌↔◌, ◌⊎◌, inl, inr, refl, subst, arith, Bool, true, false, List, [], ◌∷◌, none, some,
  Bytes, codes,
}
use external_mirror_cache.Base.Int.{pos, ◌≤ℤ◌}
use external_mirror_cache.Errors.{Error, wrapped, Result, ok, err, Result-cases}
use external_mirror_cache.Go.Strings.{Std}
use external_mirror_cache.Go.Header.{Header}
use external_mirror_cache.Freshness.Evaluate.{Time, evaluate}
use external_mirror_cache.Freshness.Gate.{evaluate-cap_zero}
use external_mirror_cache.Process.Settings.{Flags, Host, Server, configure, wrapping}
use external_mirror_cache.Process.Configured.{IsConfigured, configure-ok_iff}
use external_mirror_cache.Process.Run.{
  Sockets, Ending, served, signalled, Runtime, Effect, listens, serves, listener_of, get_listener,
  run_server, run_on, run_with, run,
}

-- The server ended by a signal, or as http.ErrServerClosed says, or without an error.
abbrev pub IsClean : (Error → Bool) → Ending → Type 0
IsClean closed (served none) = Unit
IsClean closed (served (some e)) = closed e ≡ true
IsClean closed (signalled problem) = Unit

run_server-ok_iff :
    (closed : Error → Bool) (ending : Ending)
    → (run_server closed ending ≡ ok tt) ↔ IsClean closed ending
unfolding run_server
run_server-ok_iff closed (served none) = ground arith
run_server-ok_iff closed (served (some e)) = ground arith
run_server-ok_iff closed (signalled problem) = ground arith

module _ (sockets : Sockets) (address : Bytes) where
  -- Where the listener comes from, and what was done for it: the first socket that was activated, or
  -- else one that listens at the address.
  abbrev pub IsListener : ℕ → List Effect → Type 0
  IsListener l effects =
      ((rest : List ℕ) × (sockets.activated ≡ ok (l ∷ rest)) × (effects ≡ []))
      ⊎ ((sockets.activated ≡ ok [])
          × (sockets.listen address ≡ ok l)
          × (effects ≡ listens address ∷ []))

  -- There is none.
  abbrev pub IsUnbound : List Effect → Type 0
  IsUnbound effects =
      ((e : Error) × (sockets.activated ≡ err e) × (effects ≡ []))
      ⊎ ((e : Error) × (sockets.activated ≡ ok [])
          × (sockets.listen address ≡ err e)
          × (effects ≡ listens address ∷ []))

  get_listener-cases :
      ((l : ℕ) × (effects : List Effect) × (get_listener sockets address ≡ (ok l, effects))
        × IsListener l effects)
      ⊎ ((e : Error) × (effects : List Effect) × (get_listener sockets address ≡ (err e, effects))
          × IsUnbound effects)
  unfolding get_listener listener_of
  get_listener-cases = go sockets.activated refl (sockets.listen address) refl
    where
      go :
          (a : Result (List ℕ))
          → sockets.activated ≡ a
          → (r : Result ℕ) → sockets.listen address ≡ r
          → ((l : ℕ) × (effects : List Effect) × (listener_of sockets address a ≡ (ok l, effects))
              × IsListener l effects)
            ⊎ ((e : Error) × (effects : List Effect) × (listener_of sockets address a
                  ≡ (err e, effects))
                × IsUnbound effects)
      go (err e) is r answer = inr (_, [], refl, inl (e, is, refl))
      go (ok (l ∷ ls)) is r answer = inl (l, [], refl, inl (ls, is, refl))
      go (ok []) is (ok l) answer =
          inl (l, listens address ∷ [], rw answer refl, inr (is, answer, refl))
      go (ok []) is (err e) answer = inr (
        wrapped (codes "listen %s") (address ∷ []) e,
        listens address ∷ [],
        rw answer refl,
        inr (e, is, answer, refl),
      )

listens-unserved :
    (address : Bytes) (server : Server) (l : ℕ) → In (serves server l) (listens address ∷ []) → ⊥
listens-unserved address server l (inl same) = absurd (cc)
listens-unserved address server l (inr among) = among

-- The ways in which a run ends.
pub data IsRun (host : Host) (sockets : Sockets) (runtime : Runtime) (f : Flags)
    : Result (Unit {0}) × List Effect → Type 0 where
  -- the flags are refused, with the first error of the set-up, and nothing is opened
  refused : (e : Error) → configure host f ≡ err e → IsRun host sockets runtime f (err e, [])
  -- there is no listener: an error, and nothing is served
  unbound :
      (server : Server) (e : Error) (effects : List Effect)
      → IsConfigured host f server
      → IsUnbound sockets f.listen effects
      → IsRun host sockets runtime f (err e, effects)
  -- the server of the flags ran once, on that listener; its end decides
  ran :
      (server : Server) (l : ℕ) (effects : List Effect) (r : Result (Unit {0}))
      → IsConfigured host f server
      → IsListener sockets f.listen l effects
      → (r ≡ ok tt) ↔ IsClean runtime.is_server_closed (runtime.ending server l)
      → IsRun host sockets runtime f (r, serves server l ∷ effects)

module _ (host : Host) (sockets : Sockets) (runtime : Runtime) (f : Flags) where
  run_on-IsRun :
      (server : Server)
      → IsConfigured host f server
      → IsRun host sockets runtime f (run_on runtime server (get_listener sockets f.listen))
  unfolding run_on
  run_on-IsRun server configured = elim (get_listener-cases sockets f.listen) [
    | inl (l, effects, e, is) ↦
        rw e (ran server l effects _ configured is (wrapped_end (runtime.ending server l)))
    | inr (x, effects, e, is) ↦ rw e (unbound server _ effects configured is)
  ]
    where
      wrapped_end :
          (ending : Ending)
          → (wrapping (codes "server") [] (run_server runtime.is_server_closed ending) ≡ ok tt)
            ↔ IsClean runtime.is_server_closed ending
      wrapped_end ending =
          let iff = run_server-ok_iff runtime.is_server_closed ending in
          let cases = Result-cases (run_server runtime.is_server_closed ending) in
          ground (arith, iff, cases)

  -- A run is refused with the first error of the set-up, and then opens nothing; or finds no
  -- listener, fails, and serves nothing; or serves once, with a server that has the values of the
  -- flags, on the first activated socket or else on one that listens at the address of the flags. It
  -- then succeeds exactly if the server ended by a signal, whatever Shutdown says, or without an
  -- error, or as closed.
  pub run-IsRun : IsRun host sockets runtime f (run host sockets runtime f)
  unfolding run run_with
  run-IsRun = elim (Result-cases (configure host f)) [
    | inl (server, e) ↦ rw e (run_on-IsRun server ((configure-ok_iff host f server).0 e))
    | inr (x, e) ↦ rw e (refused x e)
  ]

  serves-IsConfigured :
      (r : Result (Unit {0}) × List Effect) (server : Server) (l : ℕ)
      → IsRun host sockets runtime f r
      → In (serves server l) r.1
      → IsConfigured host f server
  serves-IsConfigured r server l (refused e x) among = absurd among
  serves-IsConfigured r server l (unbound s e effects c (inl (x, is, same))) among =
      absurd (subst (In (serves server l)) same among)
  serves-IsConfigured r server l (unbound s e effects c (inr (x, is, a, same))) among =
      absurd (listens-unserved f.listen server l (subst (In (serves server l)) same among))
  serves-IsConfigured r server l (ran s k effects result c is end) (inl same) =
      subst (IsConfigured host f) (cc) c
  serves-IsConfigured r server l (ran s k effects result c (inl (ls, is, same)) end) (inr among) =
      absurd (subst (In (serves server l)) same among)
  serves-IsConfigured r server l (ran s k effects result c (inr (is, a, same)) end) (inr among) =
      absurd (listens-unserved f.listen server l (subst (In (serves server l)) same among))

  -- The kill switch from the command line: where the flag of the cap is read as zero, no server that
  -- a run serves with finds any entry fresh, whatever the other flags and the clocks say.
  pub run-cap_zero :
      (server : Server) (l : ℕ) (g : Std) (stored : Header) (stored_at now : Time)
      (key_headers : List Bytes)
      → host.parse_duration f.freshness_cap ≡ ok (pos 0)
      → In (serves server l) (run host sockets runtime f).1
      → (evaluate g stored stored_at now server.middleware.freshness_cap key_headers).fresh ≡ false
  run-cap_zero server l g stored stored_at now key_headers zero_cap among =
      let c = serves-IsConfigured _ server l run-IsRun among in
      let same = c.freshness_cap.read in
      let cap : pos 0 ≡ server.middleware.freshness_cap = cc in
      evaluate-cap_zero g stored stored_at now server.middleware.freshness_cap key_headers
        (subst (λ z. z ≤ℤ pos 0) cap (omega arith))
