-- ===== src/Client/Runner/Single.antt =====
-- internal/client/runner.go: at most one transport runs, whatever is announced.
use g_tun.Prelude.{ℕ, ◌+◌, Option, none, some, List, [], ◌∷◌, ◌==◌, ltb, arith, if◌then◌else◌, ◌≡◌}
use g_tun.Control.{Settings}
use g_tun.Config.Client.{Client}
use g_tun.Client.Runner.{Running, Runner, World, new_runner, stop, run_new, apply}

pub data Step (r : Runner) : Runner → Type 0 where
  applies : (w : World) (cfg : Client) (settings : Settings) → Step r (apply w cfg settings r).1
  stops : Step r (stop r)

pub data Reach : Runner → Type 0 where
  start : Reach new_runner
  next : {r r' : Runner} → Reach r → Step r r' → Reach r'

-- How often a transport was stopped, and whether it is the current one.
abbrev pub stops_of : ℕ → List ℕ → ℕ
stops_of n [] = 0
stops_of n (m ∷ ms) = (if m == n then 1 else 0) + stops_of n ms

abbrev pub held : ℕ → Option Running → ℕ
held n none = 0
held n (some run) = if run.number == n then 1 else 0

-- Each transport that was started is the current one, or was stopped exactly once.
abbrev pub Single : Runner → Type 0
Single r = (n : ℕ) → stops_of n r.stopped + held n r.current ≡ (if ltb n r.started then 1 else 0)

stop-Single : (r : Runner) → Single r → Single (stop r)
unfolding stop
stop-Single r s n = ground (arith, s n)

stop-idle : (r : Runner) → (stop r).current ≡ none
unfolding stop
stop-idle r = ground arith

Step-Single : {r r' : Runner} → Step r r' → Single r → Single r'
unfolding apply run_new
Step-Single {r} (applies w cfg settings) s n = ground (arith, s n, stop-Single r s n, stop-idle r)
Step-Single {r} stops s n = stop-Single r s n

-- In every history of announcements and stops, each transport that was ever started is the current
-- one, or was cancelled and waited for exactly once: so two transports never run at the same time.
pub Reach-Single : {r : Runner} → Reach r → Single r
Reach-Single start n = ground arith
Reach-Single (next r st) n = Step-Single st (Reach-Single r) n
