-- ===== src/Transport/Udp/Table.antt =====
-- internal/transport/udp.go: the table of sessions, whatever the goroutines do.
use g_tun.Prelude.{ℕ, ◌<◌, ◌≤◌, Bytes, Bool, true, false, some, arith, ◌≡◌, refl, ◌⊎◌}
use g_tun.Transport.Udp.{
  Relay, Filter, init, touch, session, on_datagram, on_reply, remove_entry, close_upstream,
  sweep_entry, close_entry,
}

-- The receive loop, the pumps, the sweeper and `closeAll`, each critical section and each close of
-- a socket as a step of its own. The rounds of the receive loop and of the pumps are steps as a
-- whole, and so are the lookup of a session and a touch, so that other goroutines can run in between.
pub data Step (r : Relay) : Relay → Type 0 where
  receives :
      (up : Filter) (dials writes : Bool) (peer now : ℕ) (pkt : Bytes)
      → Step r (on_datagram up dials writes peer now pkt r).1
  replies :
      (down : Filter) (writes : Bool) (s now : ℕ) (pkt : Bytes)
      → Step r (on_reply down writes s now pkt r).1
  looks_up : (dials : Bool) (peer now : ℕ) → Step r (session dials peer now r).1
  touches : (s now : ℕ) → Step r (touch s now r)
  -- a pump's socket failed
  removes : (s : ℕ) → s < r.created → Step r (remove_entry s r)
  sweeps : (now p : ℕ) → Step r (sweep_entry now p r)
  closes_all : (p : ℕ) → Step r (close_entry p r)
  -- the close that follows a removal
  closes : (s : ℕ) → r.doomed s ≡ true → Step r (close_upstream s r)

pub data Reach : Relay → Type 0 where
  start : Reach init
  next : {r r' : Relay} → Reach r → Step r r' → Reach r'

pub record Table (r : Relay) : Type 0 where
  -- A session in the map is its peer's, and nobody has closed its socket or is about to.
  pub keyed :
      (p s : ℕ)
      → r.sessions p ≡ some s
      → (r.peer s ≡ p) × (s < r.created) × (r.doomed s ≡ false) × (r.closed s ≡ false)
  -- Every session that was made is in the map, or is about to be closed, or closed.
  pub owned : (s : ℕ) → s < r.created → (r.sessions (r.peer s) ≡ some s) ⊎ (r.doomed s ≡ true)
  pub fresh : (s : ℕ) → r.created ≤ s → (r.doomed s ≡ false) × (r.closed s ≡ false)
  pub after : (s : ℕ) → r.closed s ≡ true → r.doomed s ≡ true

receives-Table :
    (up : Filter) (dials writes : Bool) (peer now : ℕ) (pkt : Bytes) (r : Relay)
    → Table r
    → Table (on_datagram up dials writes peer now pkt r).1
unfolding on_datagram session touch
receives-Table up dials writes peer now pkt r t = record {
  keyed = λ p s e. ground (arith, t.keyed p s, t.fresh s);
  owned = λ s h. ground (arith, t.owned s, t.keyed peer s);
  fresh = λ s h. ground (arith, t.fresh s);
  after = λ s h. ground (arith, t.after s);
}

looks_up-Table :
    (dials : Bool) (peer now : ℕ) (r : Relay) → Table r → Table (session dials peer now r).1
unfolding session touch
looks_up-Table dials peer now r t = record {
  keyed = λ p s e. ground (arith, t.keyed p s, t.fresh s);
  owned = λ s h. ground (arith, t.owned s, t.keyed peer s);
  fresh = λ s h. ground (arith, t.fresh s);
  after = λ s h. ground (arith, t.after s);
}

Step-Table : {r r' : Relay} → Step r r' → Table r → Table r'
unfolding on_reply touch remove_entry close_upstream sweep_entry close_entry
Step-Table {r} (receives up dials writes peer now pkt) t =
    receives-Table up dials writes peer now pkt r t
Step-Table {r} (looks_up dials peer now) t = looks_up-Table dials peer now r t
Step-Table {r} (touches s' now) t = record {
  keyed = t.keyed;
  owned = t.owned;
  fresh = t.fresh;
  after = t.after;
}
Step-Table {r} (replies down writes s' now pkt) t = record {
  keyed = λ p s e. ground (arith, t.keyed p s);
  owned = λ s h. ground (arith, t.owned s);
  fresh = λ s h. ground (arith, t.fresh s);
  after = λ s h. ground (arith, t.after s);
}
Step-Table {r} (removes s' h') t = record {
  keyed = λ p s e. ground (arith, t.keyed p s);
  owned = λ s h. ground (arith, t.owned s);
  fresh = λ s h. ground (arith, t.fresh s);
  after = λ s h. ground (arith, t.after s);
}
Step-Table {r} (sweeps now p') t = record {
  keyed = λ p s e. ground (arith, t.keyed p s, t.keyed p' s);
  owned = λ s h. ground (arith, t.owned s, t.keyed p' s);
  fresh = λ s h. ground (arith, t.fresh s, t.keyed p' s);
  after = λ s h. ground (arith, t.after s);
}
Step-Table {r} (closes_all p') t = record {
  keyed = λ p s e. ground (arith, t.keyed p s, t.keyed p' s);
  owned = λ s h. ground (arith, t.owned s, t.keyed p' s);
  fresh = λ s h. ground (arith, t.fresh s, t.keyed p' s);
  after = λ s h. ground (arith, t.after s);
}
Step-Table {r} (closes s' h') t = record {
  keyed = λ p s e. ground (arith, t.keyed p s);
  owned = λ s h. ground (arith, t.owned s);
  fresh = λ s h. ground (arith, t.fresh s, t.fresh s');
  after = λ s h. ground (arith, t.after s);
}

-- In every history of the relay's goroutines a session in the map is its peer's and its socket is
-- open, with nobody about to close it; and a session that is not in the map any more is about to be
-- closed or closed: no socket is leaked, and no datagram is put on a closed one by the map.
pub Reach-Table : {r : Relay} → Reach r → Table r
Reach-Table start = record {
  keyed = λ p s e. cc;
  owned = λ s h. ground arith;
  fresh = λ s h. (refl, refl);
  after = λ s h. cc;
}
Reach-Table (next r st) = Step-Table st (Reach-Table r)
