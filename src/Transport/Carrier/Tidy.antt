-- ===== src/Transport/Carrier/Tidy.antt =====
-- internal/transport/client.go and stealth.go: no attempt leaves a connection behind.
use g_tun.Prelude.{
  ℕ, zero, suc, ◌≡◌, refl, ap, ◌∙◌, Bytes, bytes_eq, Bool, true, false, none, some, inl, inr,
  Bool-cases,
}
use g_tun.Result.{Result, ok, err, Error}
use g_tun.Proto.{Name, stealth, utcp_mux, web_socket}
use g_tun.Auth.Mac.{Hmac, Channel}
use g_tun.Auth.Io.{Conn, run, bind, do_deadline}
use g_tun.Auth.Io.Sequence.{run-bind, next_inv}
use g_tun.Auth.Io.Steps.{sets_deadline_inv, return_inv}
use g_tun.Auth.Handshake.{client_handshake}
use g_tun.Auth.Handshake.Client.{Proved, client_handshake_iff}
use g_tun.Transport.Conn.{handshake, client_handshake_on}
use g_tun.Transport.Kcp.{Ciphers, kcp_block_crypt}
use g_tun.Transport.Carrier.{
  Dialed, connected, failed, Network, dial_stealth, after_shadow, outcome, dialed, shadow,
  after_cipher, after_handshake, dial_raw, after_dial, dial_authenticated, start_session,
  connect_mux,
}

-- The shadowtls handshake leaves the connection open where it succeeds.
abbrev pub KeepsOpen : Network → Type 0
KeepsOpen net = (c c' : Conn) → run net.shadow_handshake c ≡ (ok tt, c') → c'.closed ≡ c.closed

-- A failed attempt has no connection, or has closed it; `P` holds of the one that it hands over.
abbrev pub Tidy : (Conn → Type 0) → Dialed → Type 0
Tidy P (connected c) = (c.closed ≡ false) × P c
Tidy P (failed e none) = Unit
Tidy P (failed e (some c)) = c.closed ≡ true

deadline-closed : (c : Conn) (on : Bool) (n : ℕ) → (do_deadline c on n).1.closed ≡ c.closed
deadline-closed c on zero = refl
deadline-closed c on (suc n) = refl

module _ (net : Network) (keeps : KeepsOpen net) where
  shadowed-Tidy :
      (c : Conn)
      → c.closed ≡ false
      → Tidy (λ _. Unit {0}) (outcome (run (bind net.shadow_handshake after_shadow) c))
  unfolding outcome after_shadow run
  shadowed-Tidy c live =
      rw (run-bind net.shadow_handshake after_shadow c)
        (go (run net.shadow_handshake c).0 (run net.shadow_handshake c).1 refl)
    where
      go :
          (r : Result (Unit {0})) (mid : Conn)
          → run net.shadow_handshake c ≡ (r, mid)
          → Tidy (λ _. Unit {0}) (outcome (run (after_shadow r) mid))
      go (ok u) mid e = (deadline-closed mid false mid.budget ∙ keeps c mid e ∙ live, tt)
      go (err x) mid e = refl

  stealth-Tidy :
      (raw : Conn)
      → raw.closed ≡ false
      → Tidy (λ _. Unit {0}) (outcome (run (dial_stealth net) raw))
  unfolding dial_stealth outcome run
  stealth-Tidy raw live = elim (Bool-cases net.new_stealth) [
    | inl e ↦ rw e (
        shadowed-Tidy (do_deadline raw true raw.budget).1
          (deadline-closed raw true raw.budget ∙ live))
    | inr e ↦ rw e refl
  ]

  dialed-Tidy :
      (b : Bool) (e : Error) (raw : Conn)
      → raw.closed ≡ false
      → Tidy (λ _. Unit {0}) (dialed b e raw)
  unfolding dialed
  dialed-Tidy true e raw live = (live, tt)
  dialed-Tidy false e raw live = tt

  module _ (h : Hmac) (lib : Ciphers) (token : Bytes) where
    raw-Tidy :
        (protocol : Name) (raw : Conn)
        → raw.closed ≡ false
        → Tidy (λ _. Unit {0}) (dial_raw h lib token protocol net raw)
    unfolding dial_raw
    raw-Tidy protocol raw live = elim (Bool-cases (web_socket protocol)) [
      | inl e ↦ rw e (dialed-Tidy net.dials _ raw live)
      | inr e ↦ elim (Bool-cases (bytes_eq protocol stealth)) [
        | inl e' ↦ rw (e, e') (of_shadow net.dials)
        | inr e' ↦ elim (Bool-cases (bytes_eq protocol utcp_mux)) [
          | inl e'' ↦ rw (e, e', e'') (of_cipher (kcp_block_crypt h lib token))
          | inr e'' ↦ rw (e, e', e'') (dialed-Tidy net.dials _ raw live)
        ]
      ]
    ]
      where
        of_shadow : (b : Bool) → Tidy (λ _. Unit {0}) (shadow net raw b)
        of_shadow true = stealth-Tidy raw live
        of_shadow false = tt

        of_cipher : (r : Result lib.Block) → Tidy (λ _. Unit {0}) (after_cipher net raw r)
        of_cipher (ok b) = dialed-Tidy net.dials _ raw live
        of_cipher (err e) = tt

-- The server proved on the connection `c` that it knows the token, for the nonce that the client drew
-- there, after the deadline was set: its nonce and its proof were read from `c`. The deadline was
-- cleared then, which leaves `c'`.
abbrev pub Verified : Hmac → Bytes → Conn → Conn → Type 0
Verified h token c c' =
    (ch : Channel) × (n : ℕ) × (m : ℕ) × (left : Conn) × (c.budget ≡ suc n)
    × Proved h token (record c { budget = n; armed = true }) ch left
    × (left.budget ≡ suc m)
    × (c' ≡ record left { budget = m; armed = false })

-- The same on the connection that the dial of the carrier made.
abbrev pub VerifiedOn : Hmac → Bytes → Dialed → Conn → Type 0
VerifiedOn h token d c' = (c : Conn) × (d ≡ connected c) × Verified h token c c'

module _ (h : Hmac) (token : Bytes) where
  pub handshake_sound :
      (c c' : Conn)
      → run (client_handshake_on h token) c ≡ (ok tt, c')
      → (c'.closed ≡ c.closed) × Verified h token c c'
  unfolding client_handshake_on handshake
  handshake_sound c c' e = sets_deadline_inv c _ _ _ e λ n budget e1.
      next_inv (client_handshake h token) _ _ e1 λ ch mid e2 e3.
        sets_deadline_inv mid _ _ _ e3 λ m budget' e4. return_inv _ _ e4 λ _ final.
          let proved = (client_handshake_iff h token _ mid ch).0 e2 in
          (
            ap (λ (x : Conn). x.closed) final ∙ ap (λ (x : Conn). x.closed) proved.final,
            (ch, n, m, mid, budget, proved, budget', final),
          )

  after_dial-Tidy :
      (d : Dialed) → Tidy (λ _. Unit {0}) d → Tidy (VerifiedOn h token d) (after_dial h token d)
  unfolding after_dial outcome after_handshake run
  after_dial-Tidy (failed e none) t = tt
  after_dial-Tidy (failed e (some c)) t = t
  after_dial-Tidy (connected c) (live, _) =
      rw (run-bind (client_handshake_on h token) after_handshake c)
        (go (run (client_handshake_on h token) c).0 (run (client_handshake_on h token) c).1 refl)
    where
      go :
          (r : Result (Unit {0})) (mid : Conn)
          → run (client_handshake_on h token) c ≡ (r, mid)
          → Tidy (VerifiedOn h token (connected c)) (outcome (run (after_handshake r) mid))
      go (ok u) mid e =
          let (same, verified) = handshake_sound c mid e in (same ∙ live, (c, refl, verified))
      go (err x) mid e = refl

session-Tidy :
    (P : Conn → Type 0) (starts : Bool) (d : Dialed) → Tidy P d → Tidy P (start_session starts d)
unfolding start_session
session-Tidy P starts (failed e c) t = t
session-Tidy P true (connected c) t = t
session-Tidy P false (connected c) t = refl

module _ (h : Hmac) (lib : Ciphers) (token : Bytes) (net : Network) (keeps : KeepsOpen net) where
  -- An attempt of the client to reach the server, over any carrier, leaves no connection behind: one
  -- that failed, in the dial, the stealth handshake, the authentication or the start of smux, has
  -- closed the connection that it made, and one that succeeded hands over an open connection. On the
  -- one that the dial of the carrier made, the server proved that it knows the token: its nonce and
  -- its proof for the nonce that the client drew were read there, after a deadline was set, and the
  -- connection handed over is what that leaves, with the deadline cleared. The handshake of shadowtls
  -- must leave the connection open where it succeeds.
  pub connect_mux-Tidy :
      (starts : Bool) (protocol : Name) (raw : Conn)
      → raw.closed ≡ false
      → Tidy
          (VerifiedOn h token (dial_raw h lib token protocol net raw))
          (dial_authenticated h lib token protocol net raw)
        × Tidy
            (VerifiedOn h token (dial_raw h lib token protocol net raw))
            (connect_mux h lib token starts protocol net raw)
  unfolding dial_authenticated connect_mux
  connect_mux-Tidy starts protocol raw live =
      let tidy = after_dial-Tidy h token _ (raw-Tidy net keeps h lib token protocol raw live) in
      (tidy, session-Tidy _ starts _ tidy)
