-- ===== src/Transport/Udp/Loop/Released.antt =====
-- internal/transport/udp.go: `run` leaves no session behind.
use g_tun.Prelude.{
  ℕ, ◌<◌, ◌≡◌, ◌≢◌, refl, Bool, true, false, none, some, List, [], ◌∷◌, inl, inr, ◌||◌, arith, ◌==◌,
  ==_iff, Bool-cases, if◌then◌else◌, Option-cases,
}
use g_tun.Result.{ok, err, read_datagram}
use g_tun.Transport.Udp.{Relay, Filter, close_entry}
use g_tun.Transport.Udp.Table.{Reach, next, closes_all, receives, Table, Reach-Table}
use g_tun.Transport.Udp.Loop.{Read, datagram, failed, Turn, goes_on, returns, close_all, on_read}

abbrev pub is_in : ℕ → List ℕ → Bool
is_in p [] = false
is_in p (q ∷ qs) = (q == p) || is_in p qs

-- Every key of the map is among the peers.
abbrev pub Covers : List ℕ → Relay → Type 0
Covers peers r = (p s : ℕ) → r.sessions p ≡ some s → is_in p peers ≡ true

entry-keeps :
    (q p s : ℕ) (r : Relay)
    → (close_entry q r).sessions p ≡ some s
    → (r.sessions p ≡ some s) × (q ≢ p)
unfolding close_entry
entry-keeps q p s r h = ground arith

entry-closes : (q s : ℕ) (r : Relay) → r.sessions q ≡ some s → (close_entry q r).closed s ≡ true
unfolding close_entry
entry-closes q s r h = ground arith

entry-other :
    (q p s : ℕ) (r : Relay) → r.sessions p ≡ some s → q ≢ p → (close_entry q r).sessions p ≡ some s
unfolding close_entry
entry-other q p s r h ne = ground arith

entry-closed : (q s : ℕ) (r : Relay) → r.closed s ≡ true → (close_entry q r).closed s ≡ true
unfolding close_entry
entry-closed q s r h = ground arith

all-closed :
    (ps : List ℕ) (s : ℕ) (r : Relay) → r.closed s ≡ true → (close_all ps r).closed s ≡ true
unfolding close_all
all-closed [] s r h = h
all-closed (q ∷ ps) s r h = all-closed ps s (close_entry q r) (entry-closed q s r h)

all-Reach : (ps : List ℕ) {r : Relay} → Reach r → Reach (close_all ps r)
unfolding close_all
all-Reach [] reached = reached
all-Reach (q ∷ ps) reached = all-Reach ps (next reached (closes_all q))

-- What is still in the map was there before, and is none of the peers'.
all-left :
    (ps : List ℕ) (p s : ℕ) (r : Relay)
    → (close_all ps r).sessions p ≡ some s
    → (r.sessions p ≡ some s) × (is_in p ps ≡ false)
unfolding close_all
all-left [] p s r h = (h, refl)
all-left (q ∷ ps) p s r h =
    let (still, absent) = all-left ps p s (close_entry q r) h in
    let (before, ne) = entry-keeps q p s r still in (before, ground (arith, ==_iff q p))

all-closes :
    (ps : List ℕ) (p s : ℕ) (r : Relay)
    → r.sessions p ≡ some s
    → is_in p ps ≡ true
    → (close_all ps r).closed s ≡ true
unfolding close_all
all-closes [] p s r h within = cc
all-closes (q ∷ ps) p s r h within = elim (Bool-cases (q == p)) [
  | inl e ↦ all-closed ps s (close_entry q r) (entry-closes q s r (ground (arith, ==_iff q p)))
  | inr e ↦
      all-closes ps p s (close_entry q r) (entry-other q p s r h (ground (arith, ==_iff q p)))
        (rw e at within)
]

-- After the return the map is empty, the sockets of the sessions that were in it are closed, and
-- every other session has a goroutine that has closed its socket or closes it next.
abbrev pub Leaves : Relay → Bool → Turn → Type 0
Leaves r over (goes_on out r') = Reach r'
Leaves r over (returns x r') =
    (x ≡ (if over then ok tt else err read_datagram))
    × ((p : ℕ) → r'.sessions p ≡ none)
    × ((p s : ℕ) → r.sessions p ≡ some s → r'.closed s ≡ true)
    × ((s : ℕ) → s < r'.created → r'.doomed s ≡ true)

abbrev is_over : Read → Bool
is_over (datagram dials writes peer now pkt) = false
is_over (failed over) = over

-- In every history of the relay's goroutines, a turn of the loop of `run` that returns, because a
-- read failed, leaves the map empty and closes the socket of each session that was in it; every
-- session that was ever made is closed or has a goroutine that closes it next. `run` then returns
-- nil if the context is done or the listener closed, and an error otherwise.
pub on_read-Leaves :
    (up : Filter) (peers : List ℕ) (read : Read) (r : Relay)
    → Reach r
    → Covers peers r
    → Leaves r (is_over read) (on_read up peers read r)
unfolding on_read
on_read-Leaves up peers (datagram dials writes peer now pkt) r reached covers =
    next reached (receives up dials writes peer now pkt)
on_read-Leaves up peers (failed over) r reached covers = (
  refl,
  empty,
  λ p s h. all-closes peers p s r h (covers p s h),
  λ s made. elim (table.owned s made) [ inl still ↦ cc (empty (r'.peer s)) | inr doomed ↦ doomed ],
)
  where
    r' : Relay
    r' = close_all peers r

    table : Table r'
    table = Reach-Table (all-Reach peers reached)

    empty : (p : ℕ) → r'.sessions p ≡ none
    empty p = elim (Option-cases (r'.sessions p)) [
      | inl e ↦ e
      | inr (s, e) ↦ let (before, absent) = all-left peers p s r e in cc (covers p s before)
    ]
