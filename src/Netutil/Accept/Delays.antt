-- ===== src/Netutil/Accept/Delays.antt =====
-- internal/netutil/accept.go: the waits of the loop, and the connections that it serves.
use native.Mathlib.Nat.{pow-suc}
use g_tun.Prelude.{
  ℕ, zero, suc, ◌*◌, ◌^◌, ◌≤◌, min, ◌≡◌, refl, ap, Bool, true, false, List, [], ◌∷◌, arith,
}
use g_tun.Netutil.Accept.{Event, accepted, failed, next_delay, accept_loop}

-- The wait after `k` failures in a row: 5 ms doubled `k` times, one second at most.
pub backoff : ℕ → ℕ
backoff k = min (5_000_000 * 2 ^ k) 1_000_000_000

next_delay-zero : next_delay 0 ≡ backoff 0
unfolding next_delay backoff
next_delay-zero = refl

next_delay-backoff : (k : ℕ) → next_delay (backoff k) ≡ backoff (suc k)
unfolding next_delay backoff
next_delay-backoff k = omega (arith, pow-suc 2 k, one_le k)
  where
    one_le : (j : ℕ) → 1 ≤ 2 ^ j
    one_le zero = omega arith
    one_le (suc j) = omega (arith, pow-suc 2 j, one_le j)

-- The description of a history, with `k` failures in a row behind it.
abbrev pub expected_waits : ℕ → List Event → List ℕ
expected_waits k [] = []
expected_waits k (accepted c ∷ es) = expected_waits 0 es
expected_waits k (failed true cancelled ∷ es) = []
expected_waits k (failed false true ∷ es) = backoff k ∷ []
expected_waits k (failed false false ∷ es) = backoff k ∷ expected_waits (suc k) es

-- The events before the loop returns.
abbrev pub served : List Event → List ℕ
served [] = []
served (accepted c ∷ es) = c ∷ served es
served (failed true cancelled ∷ es) = []
served (failed false true ∷ es) = []
served (failed false false ∷ es) = served es

abbrev pub ends : List Event → Bool
ends [] = false
ends (accepted c ∷ es) = ends es
ends (failed true cancelled ∷ es) = true
ends (failed false true ∷ es) = true
ends (failed false false ∷ es) = ends es

waits_after :
    (k delay : ℕ) (es : List Event)
    → next_delay delay ≡ backoff k
    → (accept_loop delay es).waits ≡ expected_waits k es
unfolding accept_loop
waits_after k delay [] h = refl
waits_after k delay (accepted c ∷ es) h = waits_after 0 0 es next_delay-zero
waits_after k delay (failed true cancelled ∷ es) h = refl
waits_after k delay (failed false true ∷ es) h = rw h
waits_after k delay (failed false false ∷ es) h =
    rw h (ap (◌∷◌ (backoff k)) (waits_after (suc k) (backoff k) es (next_delay-backoff k)))

served_by :
    (delay : ℕ) (es : List Event)
    → ((accept_loop delay es).handled ≡ served es) × ((accept_loop delay es).returned ≡ ends es)
unfolding accept_loop
served_by delay [] = (refl, refl)
served_by delay (accepted c ∷ es) = let (a, b) = served_by 0 es in (ap (◌∷◌ c) a, b)
served_by delay (failed true cancelled ∷ es) = (refl, refl)
served_by delay (failed false true ∷ es) = (refl, refl)
served_by delay (failed false false ∷ es) = served_by (next_delay delay) es

-- The loop serves exactly the connections accepted before it returns, in their order; it returns
-- exactly when a failure finds the context done or the listener closed, or when the context ends a
-- wait; and the k-th failure in a row (from 0) is followed by a wait of 5 ms * 2^k, one second at
-- most, where an accepted connection starts the count again.
pub accept_loop_lem :
    (es : List Event)
    → ((accept_loop 0 es).handled ≡ served es)
      × ((accept_loop 0 es).returned ≡ ends es)
      × ((accept_loop 0 es).waits ≡ expected_waits 0 es)
accept_loop_lem es = let (a, b) = served_by 0 es in (a, b, waits_after 0 0 es next_delay-zero)
