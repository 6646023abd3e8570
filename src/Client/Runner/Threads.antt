-- ===== src/Client/Runner/Threads.antt =====
-- internal/client/runner.go: the goroutines behind `runner`, `stopLocked` with its wait, and
-- `supervise` in the goroutine of each transport.
-- Transports are numbered in the order of their starts. The mutex is held while `stopLocked` waits.
pub mod Joined
use g_tun.Prelude.{
  ℕ, suc, ◌*◌, min, Bool, true, false, ◌||◌, Option, none, some, List, [], ◌∷◌, ◌==◌, if◌then◌else◌,
  ◌≡◌, ◌<◌,
}
use g_tun.Client.Loop.{min_backoff, max_backoff}

-- Where a goroutine is: in `tr.Run`, with the next wait, in the wait, or past the close of `done`.
pub data Phase : Type 0 where
  running pausing : (backoff : ℕ) → Phase
  gone : Phase

pub record Threads : Type 0 where
  pub phases : ℕ → Phase
  pub cancelled : ℕ → Bool
  pub current : Option ℕ
  pub started : ℕ
  -- The transports that were cancelled and waited for, the last one first.
  pub stopped : List ℕ
  -- `stopLocked` has cancelled the current transport, and waits for its `done`.
  pub stopping : Bool
  -- The runner's own context is done, and with it those of the transports.
  pub over : Bool

abbrev pub init : Threads
init = record {
  phases = λ n. gone;
  cancelled = λ n. false;
  current = none;
  started = 0;
  stopped = [];
  stopping = false;
  over = false;
}

-- `ctx.Err() != nil` in the goroutine of a transport.
abbrev is_done : ℕ → Threads → Bool
is_done n t = t.cancelled n || t.over

abbrev set_phase : ℕ → Phase → Threads → Threads
set_phase n x t = record t { phases = λ m. if n == m then x else t.phases m }

-- The end of `apply`: a new transport, in a goroutine of its own.
unfoldable pub start_new : Threads → Threads
start_new t =
    set_phase t.started (running min_backoff)
      (record t { current = some t.started; started = suc t.started })

-- `stopLocked` up to the wait, and behind it.
unfoldable pub cancel_current : ℕ → Threads → Threads
cancel_current n t = record t {
  cancelled = λ m. if n == m then true else t.cancelled m;
  stopping = true;
}

unfoldable pub join_current : ℕ → Threads → Threads
join_current n t = record t { current = none; stopped = n ∷ t.stopped; stopping = false }

-- `tr.Run` returns: `supervise` returns if the context is done, and waits if not.
unfoldable pub run_returned : ℕ → ℕ → Threads → Threads
run_returned n backoff t = set_phase n (if is_done n t then gone else pausing backoff) t

-- The two ends of `sleep`.
unfoldable pub wake : ℕ → ℕ → Threads → Threads
wake n backoff t = set_phase n (running (min (2 * backoff) max_backoff)) t

unfoldable pub interrupt : ℕ → Threads → Threads
interrupt n t = set_phase n gone t

pub data Step (t : Threads) : Threads → Type 0 where
  starts : t.current ≡ none → Step t (start_new t)
  cancels : (n : ℕ) → t.current ≡ some n → t.stopping ≡ false → Step t (cancel_current n t)
  joins :
      (n : ℕ)
      → t.current ≡ some n
      → t.stopping ≡ true
      → t.phases n ≡ gone
      → Step t (join_current n t)
  ends : t.over ≡ false → Step t (record t { over = true })
  returns : (n backoff : ℕ) → t.phases n ≡ running backoff → Step t (run_returned n backoff t)
  -- The timer may be first also when the context is done.
  wakes : (n backoff : ℕ) → t.phases n ≡ pausing backoff → Step t (wake n backoff t)
  interrupts :
      (n backoff : ℕ) → t.phases n ≡ pausing backoff → is_done n t ≡ true → Step t (interrupt n t)

pub data Reach : Threads → Type 0 where
  start : Reach init
  next : {t t' : Threads} → Reach t → Step t t' → Reach t'
