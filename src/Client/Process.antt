-- ===== src/Client/Process.antt =====
-- internal/client/client.go: `Run`, with the runner that it keeps and stops.
pub mod Stops
pub mod Refines
pub mod Outcome
use g_tun.Prelude.{
  ℕ, ◌*◌, min, bytes_eq, Bool, true, false, not, Option, none, some, List, [], ◌∷◌, if◌then◌else◌,
}
use g_tun.Result.{Result, ok, err}
use g_tun.Config.Client
use g_tun.Control.{Json}
use g_tun.Auth.Mac.{Hmac}
use g_tun.Auth.Io.{Conn, run}
use g_tun.Client.Loop.{min_backoff, max_backoff, reset}
use g_tun.Client.Runner.{Runner, World, new_runner, stop}
use g_tun.Client.Control.{Attempt, run_control, run_static}

-- What happens in one turn of the loop: the connection that the dial makes, if it makes one, the
-- files and transports as they then are, whether the context is done when the connection has ended,
-- and whether it is done before the wait that follows is over.
pub record Turn : Type 0 where
  pub conn : Option Conn
  pub world : World
  pub done : Bool
  pub cancelled : Bool

-- `none` for the result: `Run` has not returned yet. The waits are those of the loop.
pub record Ended : Type 0 where
  pub waits : List ℕ
  pub result : Option (Result (Unit {0}))
  pub runner : Runner

-- A return, with the deferred `r.stop()`.
abbrev pub returns : List ℕ → Result (Unit {0}) → Runner → Ended
returns waits result r = record { waits = waits; result = some result; runner = stop r }

abbrev pub waiting : Runner → Ended
waiting r = record { waits = []; result = none; runner = r }

finish_static : Bool → Result (Unit {0}) × Runner → Ended
finish_static done (err e, r) = returns [] (err e) r
finish_static true (ok u, r) = returns [] (ok tt) r
finish_static false (ok u, r) = waiting r

abbrev pub sleep : ℕ → Bool → Runner → Ended → Ended
sleep backoff true r rest = returns (backoff ∷ []) (ok tt) r
sleep backoff false r rest = record rest { waits = backoff ∷ rest.waits }

module _ (h : Hmac) (json : Json) (cfg : Client.Client) where
  -- `runControl`, the dial included.
  unfoldable pub attempt : World → Option Conn → Runner → Attempt
  attempt w none r = record { established = false; runner = r }
  attempt w (some c) r = (run (run_control w cfg h json r) c).0

  unfoldable pub run_turns : ℕ → Runner → List Turn → Ended
  run_turns backoff r [] = waiting r
  run_turns backoff r (t ∷ ts) =
      let a = attempt t.world t.conn r in
      let backoff' = reset a.established backoff in
      let rest = run_turns (min (2 * backoff') max_backoff) a.runner ts in
      if t.done then returns [] (ok tt) a.runner else sleep backoff' t.cancelled a.runner rest

  -- `Run`: `w` and `done` are the world and the end of the context with a fixed protocol.
  unfoldable pub run_client : World → Bool → List Turn → Ended
  unfolding finish_static run_turns
  run_client w done turns =
      if not (bytes_eq cfg.protocol [])
      then finish_static done (run_static w cfg new_runner)
      else run_turns min_backoff new_runner turns
