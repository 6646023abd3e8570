-- ===== src/Client/Loop.antt =====
-- internal/client/client.go and runner.go: the reconnect loop of `Run`, and `supervise`.
-- A loop runs over what happens in its rounds. Times are seconds.
pub mod Backoff
use g_tun.Prelude.{ℕ, ◌+◌, ◌*◌, min, Bool, true, false, List, [], ◌∷◌, if◌then◌else◌}

abbrev pub min_backoff : ℕ
min_backoff = 3

abbrev pub max_backoff : ℕ
max_backoff = 60

-- One round: whether the server accepted the client, whether the context is done after the
-- connection ended, and whether it is done before the wait that follows is.
pub record Round : Type 0 where
  pub established : Bool
  pub done : Bool
  pub cancelled : Bool

pub record Trace : Type 0 where
  pub waits : List ℕ
  pub returned : Bool

abbrev pub stopped : Trace
stopped = record { waits = []; returned = true }

-- A wait of `backoff`, and the rest of the loop if the wait is not cut short.
abbrev wait : ℕ → Bool → Trace → Trace
wait backoff true rest = record { waits = backoff ∷ []; returned = true }
wait backoff false rest = record rest { waits = backoff ∷ rest.waits }

-- `if established { backoff = minBackoff }`.
abbrev pub reset : Bool → ℕ → ℕ
reset established backoff = if established then min_backoff else backoff

unfoldable pub run_loop : ℕ → List Round → Trace
run_loop backoff [] = record { waits = []; returned = false }
run_loop backoff (r ∷ rs) =
    let backoff' = reset r.established backoff in
    let rest = run_loop (min (2 * backoff') max_backoff) rs in
    if r.done then stopped else wait backoff' r.cancelled rest

-- `Run` without a fixed protocol.
unfoldable pub run_dynamic : List Round → Trace
unfolding run_loop
run_dynamic rs = run_loop min_backoff rs

supervise_from : ℕ → List Round → Trace
supervise_from backoff [] = record { waits = []; returned = false }
supervise_from backoff (r ∷ rs) =
    let rest = supervise_from (min (2 * backoff) max_backoff) rs in
    if r.done then stopped else wait backoff r.cancelled rest

-- `supervise`: a round is one run of the transport, and `established` plays no part.
unfoldable pub supervise : List Round → Trace
unfolding supervise_from
supervise rs = supervise_from min_backoff rs
