-- ===== src/Transport/Udp/Loop/Entries.antt =====
-- internal/transport/udp.go: the walk of `sweep` over the entries of the map.
use g_tun.Prelude.{
  ℕ, ◌-◌, ◌<◌, ◌≤◌, ◌≡◌, ◌≢◌, refl, ◌∙◌, Bool, true, false, none, some, List, [], ◌∷◌, ◌++◌, inl,
  inr, ◌||◌, arith, ◌==◌, ==_iff, Bool-cases,
}
use g_tun.Transport.Udp.{Relay, udp_idle_timeout, sweep_entry}
use g_tun.Transport.Udp.Table.{Reach, next, sweeps}
use g_tun.Transport.Udp.Loop.{idle_entry, sweep_entries}
use g_tun.Transport.Udp.Loop.Released.{is_in}

-- A session that was seen at `last` is idle at `now`.
abbrev pub Idle : ℕ → ℕ → Type 0
Idle now last = last < now - udp_idle_timeout

entry-same :
    (now q s : ℕ) (r : Relay)
    → ((sweep_entry now q r).last_seen s ≡ r.last_seen s)
      × ((sweep_entry now q r).closed s ≡ r.closed s)
unfolding sweep_entry
entry-same now q s r = (ground arith, ground arith)

entry-none :
    (now q p : ℕ) (r : Relay) → r.sessions p ≡ none → (sweep_entry now q r).sessions p ≡ none
unfolding sweep_entry
entry-none now q p r h = ground arith

entry-recent :
    (now q p s : ℕ) (r : Relay)
    → r.sessions p ≡ some s
    → now - udp_idle_timeout ≤ r.last_seen s
    → (sweep_entry now q r).sessions p ≡ some s
unfolding sweep_entry
entry-recent now q p s r h recent = ground (arith, ==_iff q p)

entry-other :
    (now q p s : ℕ) (r : Relay)
    → r.sessions p ≡ some s
    → q ≢ p
    → (sweep_entry now q r).sessions p ≡ some s
unfolding sweep_entry
entry-other now q p s r h ne = ground arith

entry-Idle :
    (now q p s : ℕ) (r : Relay)
    → r.sessions p ≡ some s
    → Idle now (r.last_seen s)
    → q ≡ p
    → ((sweep_entry now q r).sessions p ≡ none) × (is_in s (idle_entry now q r) ≡ true)
unfolding sweep_entry idle_entry
entry-Idle now q p s r h idle same = (ground arith, ground arith)

entry-doomed :
    (now q s : ℕ) (r : Relay)
    → (r.doomed s ≡ true → (sweep_entry now q r).doomed s ≡ true)
      × (is_in s (idle_entry now q r) ≡ true
          → (Idle now (r.last_seen s)) × ((sweep_entry now q r).doomed s ≡ true))
unfolding sweep_entry idle_entry
entry-doomed now q s r = (λ h. ground arith, λ h. ground arith)

or-true : (b : Bool) → (b || true) ≡ true
or-true true = refl
or-true false = refl

is_in-append : (s : ℕ) (xs ys : List ℕ) → is_in s (xs ++ ys) ≡ (is_in s xs || is_in s ys)
is_in-append s [] ys = refl
is_in-append s (x ∷ xs) ys = ground (arith, is_in-append s xs ys)

sweep-same :
    (now : ℕ) (ps : List ℕ) (s : ℕ) (r : Relay)
    → ((sweep_entries now ps r).1.last_seen s ≡ r.last_seen s)
      × ((sweep_entries now ps r).1.closed s ≡ r.closed s)
unfolding sweep_entries
sweep-same now [] s r = (refl, refl)
sweep-same now (q ∷ ps) s r =
    let (seen, closed) = sweep-same now ps s (sweep_entry now q r) in
    (seen ∙ (entry-same now q s r).0, closed ∙ (entry-same now q s r).1)

pub sweep-none :
    (now : ℕ) (ps : List ℕ) (p : ℕ) (r : Relay)
    → r.sessions p ≡ none
    → (sweep_entries now ps r).1.sessions p ≡ none
unfolding sweep_entries
sweep-none now [] p r h = h
sweep-none now (q ∷ ps) p r h = sweep-none now ps p _ (entry-none now q p r h)

pub sweep-recent :
    (now : ℕ) (ps : List ℕ) (p s : ℕ) (r : Relay)
    → r.sessions p ≡ some s
    → now - udp_idle_timeout ≤ r.last_seen s
    → (sweep_entries now ps r).1.sessions p ≡ some s
unfolding sweep_entries
sweep-recent now [] p s r h recent = h
sweep-recent now (q ∷ ps) p s r h recent =
    sweep-recent now ps p s _ (entry-recent now q p s r h recent)
      (rw ((entry-same now q s r).0) recent)

pub sweep-Idle :
    (now : ℕ) (ps : List ℕ) (p s : ℕ) (r : Relay)
    → r.sessions p ≡ some s
    → is_in p ps ≡ true
    → Idle now (r.last_seen s)
    → ((sweep_entries now ps r).1.sessions p ≡ none) × (is_in s (sweep_entries now ps r).0 ≡ true)
unfolding sweep_entries
sweep-Idle now [] p s r h within idle = cc
sweep-Idle now (q ∷ ps) p s r h within idle = elim (Bool-cases (q == p)) [
  | inl e ↦
      let (gone, listed) = entry-Idle now q p s r h idle ((==_iff q p).0 e) in
      (sweep-none now ps p _ gone, is_in-append s (idle_entry now q r) _ ∙ rw listed refl)
  | inr e ↦
      let (gone, listed) =
        sweep-Idle now ps p s _ (entry-other now q p s r h (ground (arith, ==_iff q p)))
          (rw e at within) (rw ((entry-same now q s r).0) idle) in
      (
        gone,
        is_in-append s (idle_entry now q r) _ ∙ rw listed (or-true (is_in s (idle_entry now q r))),
      )
]

sweep-doomed :
    (now : ℕ) (ps : List ℕ) (s : ℕ) (r : Relay)
    → r.doomed s ≡ true
    → (sweep_entries now ps r).1.doomed s ≡ true
unfolding sweep_entries
sweep-doomed now [] s r h = h
sweep-doomed now (q ∷ ps) s r h = sweep-doomed now ps s _ ((entry-doomed now q s r).0 h)

pub sweep-Reach : (now : ℕ) (ps : List ℕ) {r : Relay} → Reach r → Reach (sweep_entries now ps r).1
unfolding sweep_entries
sweep-Reach now [] reached = reached
sweep-Reach now (q ∷ ps) reached = sweep-Reach now ps (next reached (sweeps now q))

-- What is on the list was idle, and the tick closes it next.
pub sweep-listed :
    (now : ℕ) (ps : List ℕ) (s : ℕ) (r : Relay)
    → is_in s (sweep_entries now ps r).0 ≡ true
    → Idle now (r.last_seen s) × ((sweep_entries now ps r).1.doomed s ≡ true)
unfolding sweep_entries
sweep-listed now [] s r h = cc
sweep-listed now (q ∷ ps) s r h = elim (Bool-cases (is_in s (idle_entry now q r))) [
  | inl e ↦
      let (idle, doomed) = (entry-doomed now q s r).1 e in (idle, sweep-doomed now ps s _ doomed)
  | inr e ↦
      let (idle, doomed) = sweep-listed now ps s (sweep_entry now q r) (
        ground (
          arith,
          e,
          h,
          is_in-append s (idle_entry now q r) (sweep_entries now ps (sweep_entry now q r)).0,
        )) in
      (rw ((entry-same now q s r).0) at idle, doomed)
]
