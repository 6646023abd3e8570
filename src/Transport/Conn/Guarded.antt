-- ===== src/Transport/Conn/Guarded.antt =====
-- internal/transport/server.go: no byte reaches the target before the handshake.
use g_tun.Prelude.{ℕ, suc, ap, ◌≡◌, refl, Bytes, Bool, true, false, List, ◌⊎◌, inl, inr, arith}
use g_tun.Result.{Result, ok, err, Error}
use g_tun.Proto.{Name, mux}
use g_tun.Auth.Mac.{Hmac, Channel}
use g_tun.Auth.Io.{Conn, run}
use g_tun.Auth.Io.Sequence.{run-bind, next_inv}
use g_tun.Auth.Io.Steps.{sets_deadline_inv, return_inv}
use g_tun.Auth.Handshake.{server_handshake}
use g_tun.Auth.Handshake.Server.{Proved, server_handshake_iff}
use g_tun.Transport.Conn.{Served, rejected, handshake, server_handshake_on, handle_conn, after_auth}

module _ (h : Hmac) (token : Bytes) where
  -- The peer proved on the connection `c` that it knows the token, for the nonce that the server drew
  -- there, after the deadline was set. The deadline was cleared then, and the connection was closed
  -- at the end: `c'` has the server's nonce and proof as its output.
  abbrev pub Authenticated : Conn → Conn → Type 0
  Authenticated c c' =
      (ch : Channel) × (n : ℕ) × (m : ℕ) × (left : Conn) × (c.budget ≡ suc n)
      × Proved h token (record c { budget = n; armed = true }) ch left
      × (left.budget ≡ suc m)
      × (c' ≡ record left { budget = m; armed = false; closed = true })

  pub on_sound :
      (c c' : Conn)
      → run (server_handshake_on h token) c ≡ (ok tt, c')
      → Authenticated c (record c' { closed = true })
  unfolding server_handshake_on handshake
  on_sound c c' e = sets_deadline_inv c _ _ _ e λ n budget e1.
      next_inv (server_handshake h token) _ _ e1 λ ch mid e2 e3.
        sets_deadline_inv mid _ _ _ e3 λ m budget' e4. return_inv _ _ e4 λ _ final. (
          ch,
          n,
          m,
          mid,
          budget,
          (server_handshake_iff h token _ mid ch).0 e2,
          budget',
          ap (λ (x : Conn). record x { closed = true }) final,
        )

  -- The handshake failed, and the connection was closed.
  abbrev pub Refused : Served × Conn → Type 0
  Refused r = (e : Error) × (r.0 ≡ rejected e) × (r.1.closed ≡ true)

  -- After an accepted handshake the connection is only closed.
  closes :
      (muxed direct starts : Bool) (dials : List Bool) (u : Unit {0}) (c : Conn)
      → (run (after_auth h token muxed direct starts dials (ok u)) c).1 ≡ record c { closed = true }
  unfolding after_auth run
  closes muxed direct starts dials u c = ground arith

  -- `handleConn` dials the target, or starts a smux session, only for a peer that proved on this
  -- connection that it knows the token: it sent the client's proof for its own nonce and for the
  -- nonce that the server drew on this connection, after the deadline had been set. The server then
  -- sent its nonce and its proof, cleared the deadline and closed the connection at the end. Any
  -- other connection is rejected and closed.
  pub handle_conn_guarded :
      (protocol : Name) (direct starts : Bool) (dials : List Bool) (c : Conn)
      → (Authenticated c (run (handle_conn h token protocol direct starts dials) c).1
          ⊎ Refused (run (handle_conn h token protocol direct starts dials) c))
        × ((run (handle_conn h token protocol direct starts dials) c).1.closed ≡ true)
  unfolding handle_conn run
  handle_conn_guarded protocol direct starts dials c =
      rw
        (run-bind (server_handshake_on h token)
          (after_auth h token (mux protocol) direct starts dials) c)
        (go (run (server_handshake_on h token) c).0 (run (server_handshake_on h token) c).1 refl)
    where
      go :
          (r : Result (Unit {0})) (c' : Conn)
          → run (server_handshake_on h token) c ≡ (r, c')
          → (Authenticated c (run (after_auth h token (mux protocol) direct starts dials r) c').1
              ⊎ Refused (run (after_auth h token (mux protocol) direct starts dials r) c'))
            × ((run (after_auth h token (mux protocol) direct starts dials r) c').1.closed ≡ true)
      go (ok u) c' e = (
        inl (rw (closes (mux protocol) direct starts dials u c') (on_sound c c' e)),
        ground arith,
      )
      go (err x) c' e = (inr (x, refl, refl), refl)
