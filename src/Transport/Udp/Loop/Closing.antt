-- ===== src/Transport/Udp/Loop/Closing.antt =====
-- internal/transport/udp.go: the loop of `sweep`, whose closes come after its critical section, with the
-- other goroutines in between.
use g_tun.Prelude.{ℕ, ◌≡◌, true, List, [], ◌∷◌, Bool-cases, inl, inr, ◌==◌, arith, ==_iff}
use g_tun.Transport.Udp.{
  Relay, touch, session, on_datagram, on_reply, remove_entry, close_upstream, sweep_entry,
  close_entry,
}
use g_tun.Transport.Udp.Table.{
  Step, receives, replies, looks_up, touches, removes, sweeps, closes_all, closes, Reach, next,
}
use g_tun.Transport.Udp.Loop.{sweep_entries}
use g_tun.Transport.Udp.Loop.Entries.{sweep-Reach, sweep-listed}
use g_tun.Transport.Udp.Loop.Released.{is_in}

-- Any steps of the goroutines.
pub data Later (r : Relay) : Relay → Type 0 where
  stay : Later r r
  goes : {r' r'' : Relay} → Later r r' → Step r' r'' → Later r r''

-- The closes behind the critical section, in the order of the list `idle`.
pub data Closes : List ℕ → Relay → Relay → Type 0 where
  done : {r r' : Relay} → Later r r' → Closes [] r r'
  close :
      {ss : List ℕ} {r r' r'' : Relay} (s : ℕ)
      → Later r r'
      → Closes ss (close_upstream s r') r''
      → Closes (s ∷ ss) r r''

-- The loop of `sweep`: each tick at its time, with the entries that it visits.
data Sweeping (r : Relay) : Relay → Type 0 where
  waits : {r' : Relay} → Later r r' → Sweeping r r'
  ticks :
      {r' r'' later : Relay} (now : ℕ) (peers : List ℕ)
      → Sweeping r r'
      → Closes (sweep_entries now peers r').0 (sweep_entries now peers r').1 r''
      → Later r'' later
      → Sweeping r later

Step-doomed : {r r' : Relay} (s : ℕ) → Step r r' → r.doomed s ≡ true → r'.doomed s ≡ true
unfolding on_datagram on_reply session touch remove_entry close_upstream sweep_entry close_entry
Step-doomed s (receives up dials writes peer now pkt) h = ground arith
Step-doomed s (replies down writes t now pkt) h = ground arith
Step-doomed s (looks_up dials peer now) h = ground arith
Step-doomed s (touches t now) h = h
Step-doomed s (removes t made) h = ground arith
Step-doomed s (sweeps now p) h = ground arith
Step-doomed s (closes_all p) h = ground arith
Step-doomed s (closes t doomed) h = h

Step-closed : {r r' : Relay} (s : ℕ) → Step r r' → r.closed s ≡ true → r'.closed s ≡ true
unfolding on_datagram on_reply session touch remove_entry close_upstream sweep_entry close_entry
Step-closed s (receives up dials writes peer now pkt) h = ground arith
Step-closed s (replies down writes t now pkt) h = ground arith
Step-closed s (looks_up dials peer now) h = ground arith
Step-closed s (touches t now) h = h
Step-closed s (removes t made) h = h
Step-closed s (sweeps now p) h = ground arith
Step-closed s (closes_all p) h = ground arith
Step-closed s (closes t doomed) h = ground arith

Later-Reach : {r r' : Relay} → Later r r' → Reach r → Reach r'
Later-Reach stay reached = reached
Later-Reach (goes past st) reached = next (Later-Reach past reached) st

Later-doomed : {r r' : Relay} (s : ℕ) → Later r r' → r.doomed s ≡ true → r'.doomed s ≡ true
Later-doomed s stay h = h
Later-doomed s (goes past st) h = Step-doomed s st (Later-doomed s past h)

Later-closed : {r r' : Relay} (s : ℕ) → Later r r' → r.closed s ≡ true → r'.closed s ≡ true
Later-closed s stay h = h
Later-closed s (goes past st) h = Step-closed s st (Later-closed s past h)

still-closed : (t s : ℕ) (r : Relay) → r.closed s ≡ true → (close_upstream t r).closed s ≡ true
unfolding close_upstream
still-closed t s r h = ground arith

now-closed : (s : ℕ) (r : Relay) → (close_upstream s r).closed s ≡ true
unfolding close_upstream
now-closed s r = ground (arith, ==_iff s s)

same-doomed : (t s : ℕ) (r : Relay) → r.doomed s ≡ true → (close_upstream t r).doomed s ≡ true
unfolding close_upstream
same-doomed t s r h = h

Closes-closed :
    {ss : List ℕ} {r r' : Relay} (s : ℕ) → Closes ss r r' → r.closed s ≡ true → r'.closed s ≡ true
Closes-closed s (done past) h = Later-closed s past h
Closes-closed s (close {ss} {r} {r'} t past rest) h =
    Closes-closed s rest (still-closed t s r' (Later-closed s past h))

-- Where the sessions on the list are about to be closed, they are closed in the end.
pub Closes-ends :
    {ss : List ℕ} {r r' : Relay}
    → Closes ss r r'
    → Reach r
    → ((s : ℕ) → is_in s ss ≡ true → r.doomed s ≡ true)
    → Reach r' × ((s : ℕ) → is_in s ss ≡ true → r'.closed s ≡ true)
Closes-ends (done past) reached doomed = (Later-Reach past reached, λ s h. cc)
Closes-ends (close {ss} {r} {r'} t past rest) reached doomed =
    let t_doomed = Later-doomed t past (doomed t (ground (arith, ==_iff t t))) in
    let (reached', closed) =
      Closes-ends rest (next (Later-Reach past reached) (closes t t_doomed))
        (λ s h. same-doomed t s r' (Later-doomed s past (doomed s (ground arith)))) in
    (
      reached',
      λ s h. elim (Bool-cases (t == s)) [
        | inl e ↦ rw ((==_iff t s).0 e) at (Closes-closed t rest (now-closed t r'))
        | inr e ↦ closed s (ground arith)
      ],
    )

-- However many ticks there are, the relay is one of a history of its goroutines.
Sweeping-Reach : {r r' : Relay} → Sweeping r r' → Reach r → Reach r'
Sweeping-Reach (waits past) reached = Later-Reach past reached
Sweeping-Reach (ticks now peers before ends past) reached =
    let mid = Sweeping-Reach before reached in
    Later-Reach past
      ((Closes-ends ends (sweep-Reach now peers mid) (λ s h. (sweep-listed now peers s _ h).1)).0)
