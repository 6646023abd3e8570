-- ===== src/Transport/Carrier.antt =====
-- internal/transport: the client's way to an authenticated connection: `dialCarrier`,
-- `dialAuthenticated` and `connectMux` (client.go), and `dialStealth` (stealth.go).
-- The libraries' answers are parameters; the connection that a dial makes is a `Conn`.
pub mod Tidy
use g_tun.Prelude.{Bytes, bytes_eq, Bool, true, false, Option, none, some, if◌then◌else◌}
use g_tun.Result.{
  Result, ok, err, Error, dial_tcp, dial_ws, dial_kcp, create_stealth, stealth_failed, authenticate,
  start_smux,
}
use g_tun.Proto.{Name, stealth, utcp_mux, web_socket}
use g_tun.Auth.Mac.{Hmac}
use g_tun.Auth.Io.{Io, pure, set_deadline, close, bind, return, raise, run, Conn}
use g_tun.Transport.Conn.{client_handshake_on}
use g_tun.Transport.Kcp.{Ciphers, kcp_block_crypt}

-- An attempt: the connection that is now the caller's, or an error and what became of the
-- connection, if there was one.
pub data Dialed : Type 0 where
  connected : Conn → Dialed
  failed : Error → Option Conn → Dialed

-- What the libraries do in one attempt: whether the dial of the network or the WebSocket and that
-- of KCP give a connection, whether shadowtls.NewClient succeeds, and what its handshake
-- (`DialContextConn`) does on the raw connection.
pub record Network : Type 0 where
  pub dials : Bool
  pub new_stealth : Bool
  pub shadow_handshake : Io (Result (Unit {0}))

after_shadow : Result (Unit {0}) → Io (Result (Unit {0}))
after_shadow (err e) = close (raise stealth_failed)
after_shadow (ok u) = set_deadline false (λ _. return tt)

-- Behind the dial; the errors of the two `SetDeadline` calls are dropped.
unfoldable pub dial_stealth : Network → Io (Result (Unit {0}))
unfolding after_shadow
dial_stealth net =
    if net.new_stealth
    then set_deadline true (λ _. bind net.shadow_handshake after_shadow)
    else close (raise create_stealth)

outcome : Result (Unit {0}) × Conn → Dialed
outcome (ok u, c) = connected c
outcome (err e, c) = failed e (some c)

-- A dial that either gives the connection or an error.
dialed : Bool → Error → Conn → Dialed
dialed true e raw = connected raw
dialed false e raw = failed e none

shadow : Network → Conn → Bool → Dialed
unfolding outcome dial_stealth
shadow net raw true = outcome (run (dial_stealth net) raw)
shadow net raw false = failed dial_tcp none

after_cipher : {A : Type 0} → Network → Conn → Result A → Dialed
unfolding dialed
after_cipher net raw (err e) = failed e none
after_cipher net raw (ok block) = dialed net.dials dial_kcp raw

unfoldable pub after_handshake : Result (Unit {0}) → Io (Result (Unit {0}))
after_handshake (err e) = close (raise authenticate)
after_handshake (ok u) = return tt

-- `smux.Client` on the authenticated connection.
start_session : Bool → Dialed → Dialed
start_session starts (failed e c) = failed e c
start_session true (connected c) = connected c
start_session false (connected c) = failed start_smux (some (record c { closed = true }))

after_dial : Hmac → Bytes → Dialed → Dialed
unfolding outcome after_handshake
after_dial h token (failed e c) = failed e c
after_dial h token (connected c) =
    outcome (run (bind (client_handshake_on h token) after_handshake) c)

module _ (h : Hmac) (lib : Ciphers) (token : Bytes) where
  -- `raw` is the connection that the dial makes.
  unfoldable pub dial_raw : Name → Network → Conn → Dialed
  unfolding dialed shadow after_cipher
  dial_raw protocol net raw =
      if web_socket protocol
      then dialed net.dials dial_ws raw
      else if bytes_eq protocol stealth
      then shadow net raw net.dials
      else if bytes_eq protocol utcp_mux
      then after_cipher net raw (kcp_block_crypt h lib token)
      else dialed net.dials dial_tcp raw

  unfoldable pub dial_authenticated : Name → Network → Conn → Dialed
  unfolding after_dial
  dial_authenticated protocol net raw = after_dial h token (dial_raw protocol net raw)

  unfoldable pub connect_mux : Bool → Name → Network → Conn → Dialed
  unfolding start_session
  connect_mux starts protocol net raw = start_session starts (dial_authenticated protocol net raw)
