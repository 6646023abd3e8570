-- ===== src/Transport/Quic/Guarded.antt =====
-- internal/transport/server.go: no QUIC stream reaches the target before the handshake.
use g_tun.Prelude.{◌≡◌, refl, Bytes, Bool, true, List, [], ◌∷◌, map, All, some, ◌⊎◌, inl, inr}
use g_tun.Result.{Result, ok, err}
use g_tun.Auth.Mac.{Hmac}
use g_tun.Auth.Io.{Conn, run}
use g_tun.Auth.Io.Sequence.{run-bind}
use g_tun.Transport.Conn.{server_handshake_on}
use g_tun.Transport.Conn.Guarded.{Authenticated, on_sound}
use g_tun.Transport.Quic.{
  Served, server_auth, close_auth, handle_one, after_auth_stream, serve_quic_conn,
}
use g_tun.Transport.Quic.Streams.{Handled, stream-Handled}

All-Handled : (later : List (Conn × Bool)) → All Handled later
All-Handled [] = tt
All-Handled (x ∷ xs) = (stream-Handled x, All-Handled xs)

-- The later streams were handled, each by itself.
abbrev pub Relays : List (Conn × Bool) → Served → Type 0
Relays later s = (s.streams ≡ map handle_one later) × All Handled later

-- The first stream carried the handshake, and is closed.
abbrev pub Opened : Hmac → Bytes → Conn → Served → Type 0
Opened h token raw s = (first : Conn) × (s.auth ≡ some first) × Authenticated h token raw first

-- `serveQUICConn` accepts further streams only from a peer that proved on the first stream of this
-- connection that it knows the token: it sent the client's proof for its own nonce and for the nonce
-- that the server drew there, after the deadline had been set. The first stream then has the server's
-- nonce and proof, no deadline, and is closed. `serveQUICConn` closes each later stream in the end,
-- and relays exactly those that begin with the marker byte, without that byte. In every case the
-- connection is closed in the end.
pub serve_quic_guarded :
    (h : Hmac) (token : Bytes) (raw : Conn) (later : List (Conn × Bool))
    → ((serve_quic_conn h token (some raw) later).closed ≡ true)
      × ((Opened h token raw (serve_quic_conn h token (some raw) later)
            × Relays later (serve_quic_conn h token (some raw) later))
          ⊎ ((serve_quic_conn h token (some raw) later).streams ≡ []))
unfolding serve_quic_conn after_auth_stream server_auth run
serve_quic_guarded h token raw later =
    rw (run-bind (server_handshake_on h token) close_auth raw)
      (go (run (server_handshake_on h token) raw).0 (run (server_handshake_on h token) raw).1 refl)
  where
    Guarded : Served → Type 0
    Guarded s = (s.closed ≡ true) × ((Opened h token raw s × Relays later s) ⊎ (s.streams ≡ []))

    go :
        (r : Result (Unit {0})) (c : Conn)
        → run (server_handshake_on h token) raw ≡ (r, c)
        → Guarded (after_auth_stream later (run (close_auth r) c))
    go (ok u) c e = (refl, inl ((_, refl, on_sound h token raw c e), (refl, All-Handled later)))
    go (err x) c e = (refl, inr refl)
