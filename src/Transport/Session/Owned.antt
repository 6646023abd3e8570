-- ===== src/Transport/Session/Owned.antt =====
-- internal/transport/session.go: who closes the sessions, whatever the goroutines do.
-- Each critical section of the mutex is one step, so a history of steps is an interleaving of any
-- number of callers of `Dial` and `Close`.
use g_tun.Prelude.{
  ℕ, ◌+◌, ◌<◌, ◌≤◌, true, Option, none, some, List, [], ◌∷◌, ◌==◌, ltb, arith, if◌then◌else◌, ◌≡◌,
  refl,
}
use g_tun.Result.{ok}
use g_tun.Transport.Session.{Dialer, Network, init, session, discard, close}

pub data Step (d : Dialer) : Dialer → Type 0 where
  -- `d.session(ctx)`, under what the network does then
  obtains : (net : Network) → Step d (session net d).1
  -- `d.discard(sess)` of a session that some caller obtained earlier
  discards : (s : ℕ) → s < d.connected → Step d (discard s d)
  closes : Step d (close d)

pub data Reach : Dialer → Type 0 where
  start : Reach init
  next : {d d' : Dialer} → Reach d → Step d d' → Reach d'

-- How often `close` was called on a session, and whether it is the current one.
abbrev pub closings : ℕ → List ℕ → ℕ
closings s [] = 0
closings s (t ∷ ts) = (if t == s then 1 else 0) + closings s ts

abbrev pub held : ℕ → Option ℕ → ℕ
held s none = 0
held s (some t) = if t == s then 1 else 0

-- Each session that was connected is either the current one, or was closed exactly once.
pub record Owned (d : Dialer) : Type 0 where
  pub once : (s : ℕ) → closings s d.shut + held s d.cur ≡ (if ltb s d.connected then 1 else 0)
  pub sealed : d.closed ≡ true → d.cur ≡ none

Step-Owned : {d d' : Dialer} → Step d d' → Owned d → Owned d'
unfolding session discard close
Step-Owned {d} (obtains net) o = record {
  once = λ s. ground (arith, o.once s);
  sealed = ground (arith, o.sealed);
}
Step-Owned {d} (discards t h) o = record {
  once = λ s. ground (arith, o.once s);
  sealed = ground (arith, o.sealed);
}
Step-Owned {d} closes o = record {
  once = λ s. ground (arith, o.once s);
  sealed = ground (arith, o.sealed);
}

-- In every history of concurrent dials and closes, each session that was ever connected is the
-- current one or was closed exactly once, no other session was closed, and a closed dialer has no
-- current session: so after `Close` none is left open.
pub Reach-Owned : {d : Dialer} → Reach d → Owned d
Reach-Owned start = record { once = λ s. ground arith; sealed = λ e. refl }
Reach-Owned (next r st) = Step-Owned st (Reach-Owned r)

-- A lookup never takes a session back, and gives one that was connected.
pub session-connected :
    (net : Network) (d : Dialer)
    → Reach d
    → (d.connected ≤ (session net d).1.connected)
      × ((s : ℕ) → (session net d).0 ≡ ok s → s < (session net d).1.connected)
unfolding session
session-connected net d r = (ground arith, λ s e. ground (arith, (Reach-Owned r).once s))
