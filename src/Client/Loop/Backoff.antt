-- ===== src/Client/Loop/Backoff.antt =====
-- internal/client: the waits of the reconnect loop and of `supervise`.
use native.Mathlib.Nat.{pow-suc}
use g_tun.Prelude.{
  ℕ, suc, ◌*◌, ◌^◌, min, ◌≡◌, refl, sym, ◌||◌, Bool, false, List, [], ◌∷◌, arith, if◌then◌else◌,
}
use g_tun.Client.Loop.{Round, run_loop, run_dynamic, supervise, supervise_from}

-- 3 seconds doubled `k` times, a minute at most.
pub backoff : ℕ → ℕ
backoff k = min (3 * 2 ^ k) 60

backoff-suc : (k : ℕ) → min (2 * backoff k) 60 ≡ backoff (suc k)
unfolding backoff
backoff-suc k = omega (arith, pow-suc 2 k)

backoff_zero : backoff 0 ≡ 3
unfolding backoff
backoff_zero = refl

backoff_one : 6 ≡ backoff 1
unfolding backoff
backoff_one = refl

-- The waits, with `k` rounds since the server last accepted the client: a round in which it did
-- starts the count again.
pub expected : ℕ → List Round → List ℕ
expected k [] = []
expected k (r ∷ rs) =
    let n : ℕ = if r.established then 0 else k in
    let rest = expected (suc n) rs in
    if r.done then [] else backoff n ∷ (if r.cancelled then [] else rest)

expected_supervised : ℕ → List Round → List ℕ
expected_supervised k [] = []
expected_supervised k (r ∷ rs) =
    let rest = expected_supervised (suc k) rs in
    if r.done then [] else backoff k ∷ (if r.cancelled then [] else rest)

run_waits : (k b : ℕ) (rs : List Round) → b ≡ backoff k → (run_loop b rs).waits ≡ expected k rs
unfolding run_loop expected
run_waits k b [] h = refl
run_waits k b (r ∷ rs) h = ground (
  arith,
  run_waits (suc k) (min (2 * b) 60) rs (rw h (backoff-suc k)),
  run_waits 1 6 rs backoff_one,
  backoff_zero,
)

supervise_waits :
    (k b : ℕ) (rs : List Round)
    → b ≡ backoff k
    → (supervise_from b rs).waits ≡ expected_supervised k rs
unfolding supervise_from expected_supervised
supervise_waits k b [] h = refl
supervise_waits k b (r ∷ rs) h =
    ground (arith, supervise_waits (suc k) (min (2 * b) 60) rs (rw h (backoff-suc k)))

-- A loop returns exactly if some round before the end finds the context done, after the
-- connection or in the wait.
abbrev pub ends : List Round → Bool
ends [] = false
ends (r ∷ rs) = r.done || (r.cancelled || ends rs)

run_returned : (b : ℕ) (rs : List Round) → (run_loop b rs).returned ≡ ends rs
unfolding run_loop
run_returned b [] = refl
run_returned b (r ∷ rs) = ground (arith, run_returned (min (2 * b) 60) rs, run_returned 6 rs)

supervise_returned : (b : ℕ) (rs : List Round) → (supervise_from b rs).returned ≡ ends rs
unfolding supervise_from
supervise_returned b [] = refl
supervise_returned b (r ∷ rs) = ground (arith, supervise_returned (min (2 * b) 60) rs)

-- The reconnect loop waits 3 s * 2^k, a minute at most, where k counts the rounds since the server
-- last accepted the client; it returns exactly when the context is done.
pub run_dynamic_lem :
    (rs : List Round)
    → ((run_dynamic rs).waits ≡ expected 0 rs) × ((run_dynamic rs).returned ≡ ends rs)
unfolding run_dynamic
run_dynamic_lem rs = (run_waits 0 3 rs (sym backoff_zero), run_returned 3 rs)

-- `supervise` waits 3 s * 2^k, a minute at most, before the restart after its k-th run (from 0),
-- however long the runs lasted; it returns exactly when the context is done.
supervise_lem :
    (rs : List Round)
    → ((supervise rs).waits ≡ expected_supervised 0 rs) × ((supervise rs).returned ≡ ends rs)
unfolding supervise
supervise_lem rs = (supervise_waits 0 3 rs (sym backoff_zero), supervise_returned 3 rs)
