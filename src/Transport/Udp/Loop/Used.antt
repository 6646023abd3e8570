-- ===== src/Transport/Udp/Loop/Used.antt =====
-- internal/transport/udp.go: when a session was last used, by the traffic on its socket.
use g_tun.Prelude.{
  ℕ, ◌<◌, ltb, if◌then◌else◌, ◌≡◌, refl, Bytes, Bool, true, Option, none, some, inl, inr,
  Option-cases, Bool-cases, arith,
}
use g_tun.Transport.Udp.{
  Relay, Filter, Write, received, init, update, touch, session, add_session, on_datagram, on_reply,
  remove_entry, close_upstream, sweep_entry, close_entry,
}
use g_tun.Transport.Udp.Table.{Reach, next}
use g_tun.Transport.Udp.Table

-- A datagram was written to the socket of the session.
abbrev pub used_up : ℕ → Option Write → (ℕ → ℕ) → ℕ → ℕ
used_up now none used = used
used_up now (some (s, payload, writes)) used = update used s now

-- A datagram from the socket of the session was written to its peer.
abbrev pub used_down : ℕ → ℕ → Option Write → (ℕ → ℕ) → ℕ → ℕ
used_down s now none used = used
used_down s now (some (peer, out, writes)) used = update used s now

-- A session that was made is used by that.
abbrev pub used_new : ℕ → Relay → Relay → (ℕ → ℕ) → ℕ → ℕ
used_new now r r' used = if ltb r.created r'.created then update used r.created now else used

module _ (up_filter down_filter : Filter) where
  -- The steps of the relay's goroutines, with the time at which each session was last used: when it
  -- was made, or when the last datagram was passed on, in either direction. One that a filter drops is
  -- no use. The lookup of a session and the touch before a write are also steps of their own.
  pub data Uses : Relay → (ℕ → ℕ) → Type 0 where
    start : Uses init (λ s. 0)
    receives :
        {r : Relay} {used : ℕ → ℕ} (dials writes : Bool) (peer now : ℕ) (pkt : Bytes)
        → Uses r used
        → Uses
            (on_datagram up_filter dials writes peer now pkt r).1
            (used_up now (on_datagram up_filter dials writes peer now pkt r).0 used)
    replies :
        {r : Relay} {used : ℕ → ℕ} (writes : Bool) (s now : ℕ) (pkt : Bytes)
        → Uses r used
        → Uses
            (on_reply down_filter writes s now pkt r).1
            (used_down s now (on_reply down_filter writes s now pkt r).0 used)
    looks_up :
        {r : Relay} {used : ℕ → ℕ} (dials : Bool) (peer now : ℕ)
        → Uses r used
        → Uses (session dials peer now r).1 (used_new now r (session dials peer now r).1 used)
    touches :
        {r : Relay} {used : ℕ → ℕ} (s now : ℕ)
        → Uses r used
        → Uses (touch s now r) (update used s now)
    removes :
        {r : Relay} {used : ℕ → ℕ} (s : ℕ)
        → s < r.created
        → Uses r used
        → Uses (remove_entry s r) used
    sweeps : {r : Relay} {used : ℕ → ℕ} (now p : ℕ) → Uses r used → Uses (sweep_entry now p r) used
    closes_all : {r : Relay} {used : ℕ → ℕ} (p : ℕ) → Uses r used → Uses (close_entry p r) used
    closes :
        {r : Relay} {used : ℕ → ℕ} (s : ℕ)
        → r.doomed s ≡ true
        → Uses r used
        → Uses (close_upstream s r) used

  pub Uses-Reach : {r : Relay} {used : ℕ → ℕ} → Uses r used → Reach r
  Uses-Reach start = Table.start
  Uses-Reach (receives dials writes peer now pkt past) =
      next (Uses-Reach past) (Table.receives up_filter dials writes peer now pkt)
  Uses-Reach (replies writes s now pkt past) =
      next (Uses-Reach past) (Table.replies down_filter writes s now pkt)
  Uses-Reach (looks_up dials peer now past) = next (Uses-Reach past) (Table.looks_up dials peer now)
  Uses-Reach (touches s now past) = next (Uses-Reach past) (Table.touches s now)
  Uses-Reach (removes s made past) = next (Uses-Reach past) (Table.removes s made)
  Uses-Reach (sweeps now p past) = next (Uses-Reach past) (Table.sweeps now p)
  Uses-Reach (closes_all p past) = next (Uses-Reach past) (Table.closes_all p)
  Uses-Reach (closes s doomed past) = next (Uses-Reach past) (Table.closes s doomed)

  -- The clock of a session that is used now.
  update-same : (f g : ℕ → ℕ) (s now t : ℕ) → f t ≡ g t → update f s now t ≡ update g s now t
  update-same f g s now t same = ground (arith, same)

  receives-seen :
      (dials writes : Bool) (peer now : ℕ) (pkt : Bytes) (r : Relay) (used : ℕ → ℕ) (t : ℕ)
      → r.last_seen t ≡ used t
      → (on_datagram up_filter dials writes peer now pkt r).1.last_seen t
        ≡ used_up now (on_datagram up_filter dials writes peer now pkt r).0 used t
  unfolding on_datagram session touch add_session
  receives-seen dials writes peer now pkt r used t same =
      elim (Option-cases (up_filter (received pkt))) [
        | inl dropped ↦ rw dropped same
        | inr (payload, passed) ↦ elim (Option-cases (r.sessions peer)) [
          | inr (s, found) ↦ rw (passed, found) (update-same r.last_seen used s now t same)
          | inl absent ↦ elim (Bool-cases dials) [
            | inl e ↦ rw (passed, absent, e) (ground (arith, same))
            | inr e ↦ rw (passed, absent, e) same
          ]
        ]
      ]

  replies-seen :
      (writes : Bool) (s now : ℕ) (pkt : Bytes) (r : Relay) (used : ℕ → ℕ) (t : ℕ)
      → r.last_seen t ≡ used t
      → (on_reply down_filter writes s now pkt r).1.last_seen t
        ≡ used_down s now (on_reply down_filter writes s now pkt r).0 used t
  unfolding on_reply touch
  replies-seen writes s now pkt r used t same = elim (Option-cases (down_filter (received pkt))) [
    | inl dropped ↦ rw dropped same
    | inr (out, passed) ↦ rw passed (update-same r.last_seen used s now t same)
  ]

  looks_up-seen :
      (dials : Bool) (peer now : ℕ) (r : Relay) (used : ℕ → ℕ) (t : ℕ)
      → r.last_seen t ≡ used t
      → (session dials peer now r).1.last_seen t
        ≡ used_new now r (session dials peer now r).1 used t
  unfolding session touch add_session
  looks_up-seen dials peer now r used t same = ground (arith, same)

  -- The relay's clock of a session tells when the session was last used.
  pub last_seen-used : {r : Relay} {used : ℕ → ℕ} → Uses r used → (s : ℕ) → r.last_seen s ≡ used s
  unfolding touch remove_entry sweep_entry close_entry close_upstream
  last_seen-used start s = refl
  last_seen-used (receives dials writes peer now pkt past) s =
      receives-seen dials writes peer now pkt _ _ s (last_seen-used past s)
  last_seen-used (replies writes t now pkt past) s =
      replies-seen writes t now pkt _ _ s (last_seen-used past s)
  last_seen-used (looks_up dials peer now past) s =
      looks_up-seen dials peer now _ _ s (last_seen-used past s)
  last_seen-used (touches {r} {used} t now past) s =
      update-same r.last_seen used t now s (last_seen-used past s)
  last_seen-used (removes t made past) s = last_seen-used past s
  last_seen-used (sweeps now p past) s = ground (arith, last_seen-used past s)
  last_seen-used (closes_all p past) s = ground (arith, last_seen-used past s)
  last_seen-used (closes t doomed past) s = last_seen-used past s
