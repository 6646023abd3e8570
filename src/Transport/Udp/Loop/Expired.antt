-- ===== src/Transport/Udp/Loop/Expired.antt =====
-- internal/transport/udp.go: what a tick of `sweep` expires.
use g_tun.Prelude.{
  ℕ, ◌-◌, ◌≤◌, ◌≡◌, true, false, none, some, List, ◌⊎◌, inl, inr, arith, ltb, Bool-cases,
  Option-cases,
}
use g_tun.Transport.Udp.{Relay, Filter, udp_idle_timeout}
use g_tun.Transport.Udp.Table.{Reach, Reach-Table}
use g_tun.Transport.Udp.Loop.{sweep_entries}
use g_tun.Transport.Udp.Loop.Released.{is_in, Covers}
use g_tun.Transport.Udp.Loop.Closing.{Closes, Closes-ends}
use g_tun.Transport.Udp.Loop.Used.{Uses, Uses-Reach, last_seen-used}
use g_tun.Transport.Udp.Loop.Entries.{
  Idle, sweep-none, sweep-recent, sweep-Idle, sweep-Reach, sweep-listed,
}

-- A peer behind the critical section, which leaves `mid` and the list `idle`, and after the closes,
-- in `r'`: it had no session; or it keeps one that was used in time, whose socket is open and not to
-- be closed; or its session was idle, is gone from the map, and its socket is closed by the tick.
abbrev pub Swept : ℕ → (ℕ → ℕ) → Relay → List ℕ × Relay → Relay → ℕ → Type 0
Swept now used r (idle, mid) r' p =
    ((r.sessions p ≡ none) × (mid.sessions p ≡ none))
    ⊎ ((s : ℕ) × (r.sessions p ≡ some s)
        × (((now - udp_idle_timeout ≤ used s)
              × (mid.sessions p ≡ some s)
              × (mid.closed s ≡ false)
              × (mid.doomed s ≡ false)
              × (is_in s idle ≡ false))
            ⊎ (Idle now (used s)
                × (mid.sessions p ≡ none)
                × (is_in s idle ≡ true)
                × (r'.closed s ≡ true))))

-- In every history of the relay's goroutines, a tick of `sweep` over all entries of the map takes
-- exactly the sessions out of it that were not used for the last `udpIdleTimeout`: since then they were
-- not made, and neither the receive loop nor their pump has passed a datagram on through them. It
-- keeps the others, with their sockets open, and makes no new entry. Behind the critical section, in
-- which no session is used, it closes the sockets of what it took out, whatever the other goroutines
-- do before, between and after these closes; the relay that is left is again one of a history of its
-- goroutines.
pub sweep_lem :
    (up down : Filter) (now : ℕ) (peers : List ℕ) (r r' : Relay) (used : ℕ → ℕ) (p : ℕ)
    → Uses up down r used
    → Covers peers r
    → Closes (sweep_entries now peers r).0 (sweep_entries now peers r).1 r'
    → Reach r' × Swept now used r (sweep_entries now peers r) r' p
sweep_lem up down now peers r r' used p uses covers ends = (ended.0, at)
  where
    idle : List ℕ
    idle = (sweep_entries now peers r).0

    mid : Relay
    mid = (sweep_entries now peers r).1

    reached : Reach mid
    reached = sweep-Reach now peers (Uses-Reach up down uses)

    ended : Reach r' × ((s : ℕ) → is_in s idle ≡ true → r'.closed s ≡ true)
    ended = Closes-ends ends reached (λ s h. (sweep-listed now peers s r h).1)

    seen : (s : ℕ) → r.last_seen s ≡ used s
    seen s = last_seen-used up down uses s

    at : Swept now used r (idle, mid) r' p
    at = elim (Option-cases (r.sessions p)) [
      | inl e ↦ inl (e, sweep-none now peers p r e)
      | inr (s, e) ↦ elim (Bool-cases (ltb (r.last_seen s) (now - udp_idle_timeout))) [
        | inl old ↦
            let old' : Idle now (r.last_seen s) = ground arith in
            let (gone, listed) = sweep-Idle now peers p s r e (covers p s e) old' in
            inr (s, e, inr (rw (seen s) at old', gone, listed, ended.1 s listed))
        | inr recent ↦
            let recent' : now - udp_idle_timeout ≤ r.last_seen s = ground arith in
            let kept = sweep-recent now peers p s r e recent' in
            let (_, _, doomed, closed) = (Reach-Table reached).keyed p s kept in
            inr (
              s,
              e,
              inl (
                rw (seen s) at recent',
                kept,
                closed,
                doomed,
                ground (arith, sweep-listed now peers s r),
              ),
            )
      ]
    ]
