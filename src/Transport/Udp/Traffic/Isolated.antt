-- ===== src/Transport/Udp/Traffic/Isolated.antt =====
-- internal/transport/udp.go: whose datagrams go over which socket, in a whole history of the relay.
use g_tun.Prelude.{
  ℕ, ◌<◌, ◌≤◌, ◌≡◌, refl, sym, Bytes, Bool, some, List, [], ◌∷◌, All, inl, inr, arith, Option-cases,
  Bool-cases, ltb,
}
use mathlib.Core.List.{Memᴰ}
use mathlib.Core.List.Memᴰ
use g_tun.Transport.Udp.{
  Relay, Filter, received, touch, session, on_datagram, on_reply, remove_entry, close_upstream,
  sweep_entry, close_entry, add_session, update,
}
use g_tun.Transport.Udp.Traffic.{
  Traffic, up, down, logged_up, logged_down, History, start, receives, replies, removes, sweeps,
  closes_all, closes,
}

module _ (up_filter down_filter : Filter) where
  -- The peer is the session's, and what was written is what the filter lets through.
  abbrev pub IsOwn : Relay → Traffic → Type 0
  IsOwn r (up p s pkt payload) = (r.peer s ≡ p) × (s < r.created) × (up_filter pkt ≡ some payload)
  IsOwn r (down p s pkt payload) =
      (r.peer s ≡ p) × (s < r.created) × (down_filter pkt ≡ some payload)

  -- Sessions keep their peers, and there are more of them.
  abbrev Grows : Relay → Relay → Type 0
  Grows r r' = (r.created ≤ r'.created) × ((s : ℕ) → s < r.created → r'.peer s ≡ r.peer s)

  IsOwn-Grows : (r r' : Relay) (e : Traffic) → Grows r r' → IsOwn r e → IsOwn r' e
  IsOwn-Grows r r' (up p s pkt payload) (more, same) (mine, made, passed) =
      (rw (same s made) mine, omega arith, passed)
  IsOwn-Grows r r' (down p s pkt payload) (more, same) (mine, made, passed) =
      (rw (same s made) mine, omega arith, passed)

  All-grow :
      (r r' : Relay) (log : List Traffic) → Grows r r' → All (IsOwn r) log → All (IsOwn r') log
  All-grow r r' [] g all = tt
  All-grow r r' (e ∷ log) g (own, all) = (IsOwn-Grows r r' e g own, All-grow r r' log g all)

  -- Every session was opened by a datagram of its peer.
  abbrev Opened : Relay → List Traffic → ℕ → Type 0
  Opened r log s = (pkt : Bytes) × (payload : Bytes) × Memᴰ (up (r.peer s) s pkt payload) log

  record Isolated (r : Relay) (log : List Traffic) : Type 0 where
    own : All (IsOwn r) log
    opened : (s : ℕ) → s < r.created → Opened r log s
    keyed : (p s : ℕ) → r.sessions p ≡ some s → (r.peer s ≡ p) × (s < r.created)

  -- A step that makes no session and writes nothing.
  quiet-Isolated :
      (r r' : Relay) (log : List Traffic)
      → Grows r r'
      → r'.created ≡ r.created
      → ((p s : ℕ) → r'.sessions p ≡ some s → r.sessions p ≡ some s)
      → Isolated r log
      → Isolated r' log
  quiet-Isolated r r' log g count sub h = record {
    own = All-grow r r' log g h.own;
    opened =
        λ s made. let before : s < r.created = omega arith in rw (g.1 s before) (h.opened s before);
    keyed =
        λ p s e. let (mine, made) = h.keyed p s (sub p s e) in (rw (g.1 s made) mine, omega arith);
  }

  tail-opened :
      (r : Relay) (e : Traffic) (log : List Traffic) (s : ℕ) → Opened r log s → Opened r (e ∷ log) s
  tail-opened r e log s (pkt, payload, m) = (pkt, payload, Memᴰ.tail m)

  -- A datagram on the socket of its peer's session.
  known-Isolated :
      (peer s now : ℕ) (pkt payload : Bytes) (r : Relay) (log : List Traffic)
      → up_filter pkt ≡ some payload
      → r.sessions peer ≡ some s
      → Isolated r log
      → Isolated (touch s now r) (up peer s pkt payload ∷ log)
  unfolding touch
  known-Isolated peer s now pkt payload r log passed found h = record {
    own = (
      ((h.keyed peer s found).0, (h.keyed peer s found).1, passed),
      All-grow r (touch s now r) log (omega arith, λ t made. refl) h.own,
    );
    opened = λ t made. tail-opened r _ log t (h.opened t made);
    keyed = h.keyed;
  }

  -- The first one of a new session.
  new-Isolated :
      (peer now : ℕ) (pkt payload : Bytes) (r : Relay) (log : List Traffic)
      → up_filter pkt ≡ some payload
      → Isolated r log
      → Isolated
          (touch r.created now (add_session peer now r))
          (up peer r.created pkt payload ∷ log)
  unfolding touch add_session
  new-Isolated peer now pkt payload r log passed h = record {
    own = (
      (mine, omega arith, passed),
      All-grow r (touch r.created now (add_session peer now r)) log (omega arith, older) h.own,
    );
    opened = λ t made. elim (Bool-cases (ltb t r.created)) [
      | inl before ↦
          let before' : t < r.created = ground arith in
          rw (older t before') (tail-opened r _ log t (h.opened t before'))
      | inr now_made ↦
          let newest : t ≡ r.created = ground arith in
          rw (newest, mine) (pkt, payload, Memᴰ.head refl)
    ];
    keyed = λ p s e. ground (arith, h.keyed p s);
  }
    where
      mine : update r.peer r.created peer r.created ≡ peer
      mine = ground arith

      older : (t : ℕ) → t < r.created → update r.peer r.created peer t ≡ r.peer t
      older t before = ground arith

  receives-Isolated :
      (dials writes : Bool) (peer now : ℕ) (pkt : Bytes) (r : Relay) (log : List Traffic)
      → Isolated r log
      → Isolated
          (on_datagram up_filter dials writes peer now pkt r).1
          (logged_up peer (received pkt) (on_datagram up_filter dials writes peer now pkt r).0 log)
  unfolding on_datagram session
  receives-Isolated dials writes peer now pkt r log h =
      elim (Option-cases (up_filter (received pkt))) [
        | inl dropped ↦ rw dropped h
        | inr (payload, passed) ↦ elim (Option-cases (r.sessions peer)) [
          | inr (s, found) ↦
              rw (passed, found)
                (known-Isolated peer s now (received pkt) payload r log passed found h)
          | inl absent ↦ elim (Bool-cases dials) [
            | inl e ↦
                rw (passed, absent, e) (new-Isolated peer now (received pkt) payload r log passed h)
            | inr e ↦ rw (passed, absent, e) h
          ]
        ]
      ]

  replies-Isolated :
      (writes : Bool) (s now : ℕ) (pkt : Bytes) (r : Relay) (log : List Traffic)
      → s < r.created
      → Isolated r log
      → Isolated
          (on_reply down_filter writes s now pkt r).1
          (logged_down s (received pkt) (on_reply down_filter writes s now pkt r).0 log)
  unfolding on_reply touch
  replies-Isolated writes s now pkt r log made h =
      elim (Option-cases (down_filter (received pkt))) [
        | inl dropped ↦ rw dropped h
        | inr (payload, passed) ↦ rw passed (record {
          own = (
            (refl, made, passed),
            All-grow r (touch s now r) log (omega arith, λ t before. refl) h.own,
          );
          opened = λ t before. tail-opened r _ log t (h.opened t before);
          keyed = h.keyed;
        })
      ]

  -- No session is made, and each keeps its peer.
  abbrev Kept : Relay → Relay → Type 0
  Kept r r' = (r'.created ≡ r.created) × ((s : ℕ) → r'.peer s ≡ r.peer s)

  Kept-Grows : (r r' : Relay) → Kept r r' → Grows r r'
  Kept-Grows r r' (count, same) = (omega arith, λ s made. same s)

  sweep_entry-Kept : (now p : ℕ) (r : Relay) → Kept r (sweep_entry now p r)
  unfolding sweep_entry
  sweep_entry-Kept now p r = (ground arith, λ s. ground arith)

  close_entry-Kept : (p : ℕ) (r : Relay) → Kept r (close_entry p r)
  unfolding close_entry close_upstream
  close_entry-Kept p r = (ground arith, λ s. ground arith)

  history-Isolated :
      {r : Relay} {log : List Traffic} → History up_filter down_filter r log → Isolated r log
  unfolding remove_entry sweep_entry close_entry close_upstream
  history-Isolated start = record {
    own = tt;
    opened = λ s made. absurd (omega arith);
    keyed = λ p s e. cc;
  }
  history-Isolated (receives dials writes peer now pkt past) =
      receives-Isolated dials writes peer now pkt _ _ (history-Isolated past)
  history-Isolated (replies writes s now pkt made past) =
      replies-Isolated writes s now pkt _ _ made (history-Isolated past)
  history-Isolated (removes {r} s past) =
      quiet-Isolated r (remove_entry s r) _ (omega arith, λ t made. refl) refl
        (λ p t e. ground arith) (history-Isolated past)
  history-Isolated (sweeps {r} now p past) =
      quiet-Isolated r (sweep_entry now p r) _
        (Kept-Grows r (sweep_entry now p r) (sweep_entry-Kept now p r)) (sweep_entry-Kept now p r).0
        (λ q t e. ground arith) (history-Isolated past)
  history-Isolated (closes_all {r} p past) =
      quiet-Isolated r (close_entry p r) _ (Kept-Grows r (close_entry p r) (close_entry-Kept p r))
        (close_entry-Kept p r).0 (λ q t e. ground arith) (history-Isolated past)
  history-Isolated (closes {r} s past) =
      quiet-Isolated r (close_upstream s r) _ (omega arith, λ t made. refl) refl (λ p t e. e)
        (history-Isolated past)

  IsOwn-member :
      (r : Relay) (e : Traffic) (log : List Traffic) → Memᴰ e log → All (IsOwn r) log → IsOwn r e
  IsOwn-member r e [] m all = absurd (Memᴰ.not-nil m)
  IsOwn-member r e (x ∷ log) (Memᴰ.head same) (own, all) = rw same own
  IsOwn-member r e (x ∷ log) (Memᴰ.tail m) (own, all) = IsOwn-member r e log m all

  -- What goes over the socket of `s` is the peer's.
  abbrev pub KeepsTo : ℕ → ℕ → Traffic → Type 0
  KeepsTo s peer (up q t pkt payload) = t ≡ s → q ≡ peer
  KeepsTo s peer (down q t pkt payload) = t ≡ s → q ≡ peer

  All-KeepsTo :
      (r : Relay) (s : ℕ) (log : List Traffic) → All (IsOwn r) log → All (KeepsTo s (r.peer s)) log
  All-KeepsTo r s [] all = tt
  All-KeepsTo r s (up q t pkt payload ∷ log) ((mine, _, _), all) =
      (λ same. rw same at (sym mine), All-KeepsTo r s log all)
  All-KeepsTo r s (down q t pkt payload ∷ log) ((mine, _, _), all) =
      (λ same. rw same at (sym mine), All-KeepsTo r s log all)

  -- In every history of the relay, a datagram that was written back to a peer is what the filter let
  -- through of one that came in on a socket, and that socket is the peer's: it was opened for a
  -- datagram of this peer that passed the other filter, and every datagram that ever went over it, in
  -- either direction, is this peer's. So a relay never gives one peer the answer to another, even if
  -- sessions expire, fail and are made anew in between.
  pub relay_isolates :
      (r : Relay) (log : List Traffic) (peer s : ℕ) (pkt payload : Bytes)
      → History up_filter down_filter r log
      → Memᴰ (down peer s pkt payload) log
      → (down_filter pkt ≡ some payload)
        × ((asked : Bytes) × (sent : Bytes) × Memᴰ (up peer s asked sent) log
            × (up_filter asked ≡ some sent))
        × All (KeepsTo s peer) log
  relay_isolates r log peer s pkt payload past m =
      let h = history-Isolated past in
      let (mine, made, passed) = IsOwn-member r _ log m h.own in
      let (asked, sent, there) = h.opened s made in
      let (_, _, let_through) = IsOwn-member r _ log there h.own in
      (passed, (asked, sent, rw mine at there, let_through), rw mine at (All-KeepsTo r s log h.own))
