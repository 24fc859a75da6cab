-- ===== src/Process/Run.antt =====
-- main.go: `getListener`, `runServer`, `run` and `main`.
use external_mirror_cache.Base.{
  ℕ, Bool, not, List, [], ◌∷◌, Option, none, some, Bytes, codes, if◌then◌else◌,
}
use external_mirror_cache.Errors.{Error, wrapped, Result, ok, err}
use external_mirror_cache.Process.Settings.{Flags, Host, Server, configure, wrapping}

-- A listener is a number: the ones of the socket activation, and what ListenConfig.Listen answers.
pub record Sockets : Type 0 where
  pub activated : Result (List ℕ)
  pub listen : Bytes → Result ℕ

-- How a server comes to its end: Serve returns an error or nil, or a signal comes and Shutdown
-- returns an error or nil.
pub data Ending : Type 0 where
  served : Option Error → Ending
  signalled : Option Error → Ending

-- The server that runs, and errors.Is at http.ErrServerClosed.
pub record Runtime : Type 0 where
  pub is_server_closed : Error → Bool
  pub ending : Server → ℕ → Ending

-- What a run does to the world: it listens at an address, and it serves on a listener.
pub data Effect : Type 0 where
  listens : Bytes → Effect
  serves : Server → ℕ → Effect

unfoldable pub listener_of : Sockets → Bytes → Result (List ℕ) → Result ℕ × List Effect
listener_of sockets address (err e) = (err (wrapped (codes "socket activation") [] e), [])
listener_of sockets address (ok (l ∷ ls)) = (ok l, [])
listener_of sockets address (ok []) =
    (wrapping (codes "listen %s") (address ∷ []) (sockets.listen address), listens address ∷ [])

unfoldable pub get_listener : Sockets → Bytes → Result ℕ × List Effect
get_listener sockets address = listener_of sockets address sockets.activated

-- An error of Shutdown is logged only.
unfoldable pub run_server : (Error → Bool) → Ending → Result (Unit {0})
run_server is_server_closed (served none) = ok tt
run_server is_server_closed (served (some e)) = if not (is_server_closed e) then err e else ok tt
run_server is_server_closed (signalled problem) = ok tt

-- The effects are listed newest first.
unfoldable pub run_on : Runtime → Server → Result ℕ × List Effect → Result (Unit {0}) × List Effect
run_on runtime server (err e, effects) = (err (wrapped (codes "get listener") [] e), effects)
run_on runtime server (ok l, effects) = (
  wrapping (codes "server") [] (run_server runtime.is_server_closed (runtime.ending server l)),
  serves server l ∷ effects,
)

unfoldable pub run_with :
    Sockets → Runtime → Flags → Result Server → Result (Unit {0}) × List Effect
run_with sockets runtime f (err e) = (err e, [])
run_with sockets runtime f (ok server) = run_on runtime server (get_listener sockets f.listen)

unfoldable pub run : Host → Sockets → Runtime → Flags → Result (Unit {0}) × List Effect
run host sockets runtime f = run_with sockets runtime f (configure host f)

-- `main`: the status of the process.
unfoldable pub exit_status : Result (Unit {0}) → ℕ
exit_status (ok u) = 0
exit_status (err e) = 1
