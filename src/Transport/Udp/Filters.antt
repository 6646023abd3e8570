-- ===== src/Transport/Udp/Filters.antt =====
-- internal/transport/udp.go: what the relay lets through.
use g_tun.Prelude.{
  ℕ, ◌+◌, ◌≤◌, Bytes, length, take-all, ap, if◌then◌else◌, Option, Bool, true, false, none, some,
  Option-cases, arith, ◌≡◌, refl, ◌⊎◌, inl, inr,
}
use g_tun.Auth.Mac.{Hmac}
use g_tun.Auth.Datagram.{
  Direction, open_datagram, client_to_server, server_to_client, seal_datagram,
}
use g_tun.Auth.Datagram.Seal.{open_datagram_iff, length-seal}
use g_tun.Transport.Udp.Table.{Reach, next, receives, Reach-Table}
use g_tun.Transport.Udp.{
  Relay, Filter, Write, max_datagram_size, received, touch, session, on_datagram, on_reply,
  server_up, server_down, client_up, client_down,
}

-- What leaves a relay: a datagram whose write fails is lost.
abbrev pub leaves : Option Write → Option (ℕ × Bytes)
leaves none = none
leaves (some (to, payload, ok)) = if ok then some (to, payload) else none

-- The datagram went to the socket of session `s`, which is its peer's session afterwards.
abbrev pub Sent : Filter → Bool → Bool → ℕ → ℕ → Bytes → Relay → Bytes → ℕ → Type 0
Sent up dials writes peer now pkt r payload s =
    (up (received pkt) ≡ some payload)
    × ((on_datagram up dials writes peer now pkt r).0 ≡ some (s, payload, writes))
    × ((on_datagram up dials writes peer now pkt r).1.sessions peer ≡ some s)
    × ((on_datagram up dials writes peer now pkt r).1.last_seen s ≡ now)
    × ((r.sessions peer ≡ some s) ⊎ ((r.sessions peer ≡ none) × (s ≡ r.created)))

-- A peer's session is used again.
on_socket :
    (up : Filter) (dials writes : Bool) (peer now : ℕ) (pkt : Bytes) (r : Relay) (payload : Bytes)
    (s : ℕ)
    → up (received pkt) ≡ some payload
    → r.sessions peer ≡ some s
    → Sent up dials writes peer now pkt r payload s
unfolding on_datagram session touch
on_socket up dials writes peer now pkt r payload s e found =
    (e, rw (e, found), ground (arith, e, found), ground (arith, e, found), inl found)

-- A datagram that passes the filter goes to a socket if one can be dialed.
sent :
    (up : Filter) (writes : Bool) (peer now : ℕ) (pkt : Bytes) (r : Relay) (payload : Bytes)
    → up (received pkt) ≡ some payload
    → (s : ℕ) × Sent up true writes peer now pkt r payload s
unfolding on_datagram session touch
sent up writes peer now pkt r payload e = elim (Option-cases (r.sessions peer)) [
  | inr (s, found) ↦ (s, on_socket up true writes peer now pkt r payload s e found)
  | inl absent ↦ (
    r.created,
    (e, rw (e, absent), ground (arith, e, absent), ground (arith, e, absent), inr (absent, refl)),
  )
]

-- A datagram that the filter drops makes no session and changes nothing, and neither does one for
-- which a socket is needed and cannot be dialed. Any other one goes as the filter left it to the
-- socket of its peer's session, which is new only if the peer had none.
on_datagram_cases :
    (up : Filter) (dials writes : Bool) (peer now : ℕ) (pkt : Bytes) (r : Relay)
    → ((up (received pkt) ≡ none) × (on_datagram up dials writes peer now pkt r ≡ (none, r)))
      ⊎ ((r.sessions peer ≡ none)
          × (dials ≡ false)
          × (on_datagram up dials writes peer now pkt r ≡ (none, r)))
      ⊎ ((payload : Bytes) × (s : ℕ) × Sent up dials writes peer now pkt r payload s)
unfolding on_datagram session
on_datagram_cases up true writes peer now pkt r = elim (Option-cases (up (received pkt))) [
  | inl dropped ↦ inl (dropped, rw dropped)
  | inr (payload, e) ↦
      let (s, out) = sent up writes peer now pkt r payload e in inr (inr (payload, s, out))
]
on_datagram_cases up false writes peer now pkt r = elim (Option-cases (up (received pkt))) [
  | inl dropped ↦ inl (dropped, rw dropped)
  | inr (payload, e) ↦ elim (Option-cases (r.sessions peer)) [
    | inl absent ↦ inr (inl (absent, refl, rw (e, absent)))
    | inr (s, found) ↦
        inr (inr (payload, s, on_socket up false writes peer now pkt r payload s e found))
  ]
]

on_reply-some :
    (down : Filter) (writes : Bool) (s now : ℕ) (pkt : Bytes) (r : Relay) (out : Bytes) (peer : ℕ)
    → down (received pkt) ≡ some out
    → r.peer s ≡ peer
    → (on_reply down writes s now pkt r).0 ≡ some (peer, out, writes)
unfolding on_reply
on_reply-some down writes s now pkt r out peer e p = rw (e, p)

received-fits : (pkt : Bytes) → length pkt ≤ max_datagram_size → received pkt ≡ pkt
unfolding received
received-fits pkt fits = take-all max_datagram_size pkt fits

module _ (h : Hmac) (token : Bytes) where
  -- What the server's relay forwards to the target was sealed for the client's direction with the
  -- token: an unauthenticated datagram reaches no target.
  server_forwards :
      (dials writes : Bool) (peer now : ℕ) (pkt payload : Bytes) (s : ℕ) (ok : Bool) (r : Relay)
      → (on_datagram (server_up h token) dials writes peer now pkt r).0 ≡ some (s, payload, ok)
      → received pkt ≡ seal_datagram h token client_to_server payload
  unfolding on_datagram session server_up
  server_forwards dials writes peer now pkt payload s ok r e =
      (open_datagram_iff h token client_to_server (received pkt) payload).0 (ground arith)

  -- What a relay that opens datagrams gets of one that the other side sealed, if it fits the buffer.
  opens :
      (dir : Direction) (m : Bytes)
      → length m + 16 ≤ max_datagram_size
      → open_datagram h token dir (received (seal_datagram h token dir m)) ≡ some m
  opens dir m fits =
      (open_datagram_iff h token dir (received sealed) m).1
        (received-fits sealed (omega (arith, length-seal h token dir m, fits)))
    where
      sealed : Bytes
      sealed = seal_datagram h token dir m

  -- A datagram of an application to the client's relay leaves the server's relay with the same
  -- bytes, and an answer of the target to that session leaves the client's relay for the same
  -- application, with the same bytes: whatever the two relays did before, if the dials succeed, both
  -- payloads leave room in a buffer of `maxDatagramSize` bytes for the tag, and the four writes
  -- succeed. A datagram whose write fails is lost. The session of the peer is there, and in use
  -- since now, also then.
  pub relay_round_trip :
      (peer peer' now : ℕ) (payload answer : Bytes) (up_ok up_ok' down_ok down_ok' : Bool)
      (c s : Relay)
      → Reach c
      → Reach s
      → length payload + 16 ≤ max_datagram_size
      → length answer + 16 ≤ max_datagram_size
      → (i : ℕ) × (j : ℕ) × (let sealed = seal_datagram h token client_to_server payload in
          let back = seal_datagram h token server_to_client answer in
          let c' = on_datagram (client_up h token) true up_ok peer now payload c in
          let s' = on_datagram (server_up h token) true up_ok' peer' now sealed s in
          (leaves c'.0 ≡ (if up_ok then some (i, sealed) else none))
          × (leaves s'.0 ≡ (if up_ok' then some (j, payload) else none))
          × (leaves (on_reply (server_down h token) down_ok j now answer s'.1).0
              ≡ (if down_ok then some (peer', back) else none))
          × (leaves (on_reply (client_down h token) down_ok' i now back c'.1).0
              ≡ (if down_ok' then some (peer, answer) else none))
          × (c'.1.sessions peer ≡ some i)
          × (s'.1.sessions peer' ≡ some j)
          × (c'.1.last_seen i ≡ now)
          × (s'.1.last_seen j ≡ now))
  unfolding server_up client_up server_down client_down
  relay_round_trip peer peer' now payload answer up_ok up_ok' down_ok down_ok' c s rc rs fits
        fits' =
      let sealed : Bytes = seal_datagram h token client_to_server payload in
      let back : Bytes = seal_datagram h token server_to_client answer in
      let (i, (_, out, at, seen, _)) = sent (client_up h token) up_ok peer now payload c sealed (
        ap (λ (p : Bytes). some (seal_datagram h token client_to_server p))
          (received-fits payload (omega (arith, fits)))) in
      let (j, (_, out', at', seen', _)) =
        sent (server_up h token) up_ok' peer' now sealed s payload
          (opens client_to_server payload fits) in
      let r : Reach _ = next rc (receives (client_up h token) true up_ok peer now payload) in
      let r' : Reach _ = next rs (receives (server_up h token) true up_ok' peer' now sealed) in
      (
        i,
        j,
        (
          ap leaves out,
          ap leaves out',
          ap leaves (
              on_reply-some (server_down h token) down_ok j now answer _ back peer'
                (ap (λ (p : Bytes). some (seal_datagram h token server_to_client p))
                  (received-fits answer (omega (arith, fits'))))
                ((Reach-Table r').keyed peer' j at').0),
          ap leaves (
              on_reply-some (client_down h token) down_ok' i now back _ answer peer
                (opens server_to_client answer fits') ((Reach-Table r).keyed peer i at).0),
          at,
          at',
          seen,
          seen',
        ),
      )
