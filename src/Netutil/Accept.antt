-- ===== src/Netutil/Accept.antt =====
-- internal/netutil/accept.go: `AcceptLoop`.
-- The loop runs over what happens to it, one event for each call of `Accept`. Times are nanoseconds.
pub mod Delays
use g_tun.Prelude.{ℕ, ◌+◌, ◌*◌, min, max, Bool, true, false, List, [], ◌∷◌, if◌then◌else◌}

abbrev min_accept_delay : ℕ
min_accept_delay = 5_000_000

abbrev max_accept_delay : ℕ
max_accept_delay = 1_000_000_000

pub data Event : Type 0 where
  -- `Accept` returned a connection.
  accepted : ℕ → Event
  -- It failed. `over`: the context is done or the listener is closed. `cancelled`: the context is
  -- done before the wait that follows is.
  failed : Bool → Bool → Event

-- The connections that were handed to a goroutine, the waits, and whether the loop returned; the
-- loop goes on where the events end.
pub record Trace : Type 0 where
  pub handled : List ℕ
  pub waits : List ℕ
  pub returned : Bool

unfoldable pub next_delay : ℕ → ℕ
next_delay delay = min (max (2 * delay) min_accept_delay) max_accept_delay

unfoldable pub accept_loop : ℕ → List Event → Trace
accept_loop delay [] = record { handled = []; waits = []; returned = false }
accept_loop delay (accepted c ∷ es) =
    let rest = accept_loop 0 es in record rest { handled = c ∷ rest.handled }
accept_loop delay (failed over cancelled ∷ es) =
    let rest = accept_loop (next_delay delay) es in
    if over
    then record { handled = []; waits = []; returned = true }
    else if cancelled
    then record { handled = []; waits = next_delay delay ∷ []; returned = true }
    else record rest { waits = next_delay delay ∷ rest.waits }
