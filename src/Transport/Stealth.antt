-- ===== src/Transport/Stealth.antt =====
-- internal/transport/stealth.go: what becomes of a connection to the stealth server, and the settings
-- that both sides hand to sing-shadowtls and uTLS, whose work is a parameter.
use g_tun.Prelude.{
  ℕ, Bytes, codes, Bool, true, Option, none, some, List, ◌≡◌, refl, ◌⊎◌, if◌then◌else◌,
}
use g_tun.Proto.{stealth}
use g_tun.Auth.Mac.{Hmac}
use g_tun.Auth.Io.{Conn, run}
use g_tun.Transport.Conn.{Served, handle_conn}
use g_tun.Transport.Conn.Guarded.{Authenticated, Refused, handle_conn_guarded}
use g_tun.Transport.Options.{ServerOptions, ClientOptions}

abbrev stealth_user : Bytes
stealth_user = codes "gtun"

abbrev stealth_protocol_level : ℕ
stealth_protocol_level = 3

-- shadowtls.ServiceConfig with its one user, and shadowtls.ClientConfig.
record ServiceConfig : Type 0 where
  version : ℕ
  user : Bytes
  password : Bytes
  handshake_server : Bytes
  strict_mode : Bool

record ClientConfig : Type 0 where
  version : ℕ
  password : Bytes
  strict_mode : Bool

-- utls.Config; no roots stand for those of the system.
record UtlsConfig : Type 0 where
  server_name : Bytes
  root_cas : Option Bytes
  min_version : ℕ

unfoldable service_config : ServerOptions → ServiceConfig
service_config o = record {
  version = stealth_protocol_level;
  user = stealth_user;
  password = o.token;
  handshake_server = o.stealth_handshake;
  strict_mode = true;
}

unfoldable client_config : ClientOptions → ClientConfig
client_config o = record {
  version = stealth_protocol_level;
  password = o.token;
  strict_mode = true;
}

-- TLS 1.2, as a number of the protocol.
abbrev version_tls12 : ℕ
version_tls12 = 0x0303

unfoldable chrome_config : ClientOptions → UtlsConfig
chrome_config o = record {
  server_name = o.stealth_sni;
  root_cas = o.stealth_root_cas;
  min_version = version_tls12;
}

-- `NewConnection` of the service: the connection that it hands to the handler, if the peer proved in
-- its TLS handshake that it knows the password, whether that comes with an `onClose`, and whether it
-- returns an error in the end. Any other connection it relays to the real site.
record Shadowed : Type 0 where
  framed : Option Conn
  has_on_close : Bool
  fails : Bool

-- What the handler did, how often it called `onClose`, and whether the accept loop closed the raw
-- connection.
record Received : Type 0 where
  handled : Option (Served × Conn)
  on_close_calls : ℕ
  raw_closed : Bool

module _ (h : Hmac) (token : Bytes) (direct starts : Bool) (dials : List Bool) where
  -- `NewConnectionEx`.
  unfoldable new_connection_ex : Conn → Bool → (Served × Conn) × ℕ
  new_connection_ex c has_on_close =
      (run (handle_conn h token stealth direct starts dials) c, if has_on_close then 1 else 0)

  receive_at : Option Conn → Shadowed → Received
  unfolding new_connection_ex
  receive_at none s = record { handled = none; on_close_calls = 0; raw_closed = s.fails }
  receive_at (some c) s =
      let (out, calls) = new_connection_ex c s.has_on_close in
      record { handled = some out; on_close_calls = calls; raw_closed = s.fails }

  -- The handler of the accept loop.
  unfoldable receive : Shadowed → Received
  unfolding receive_at
  receive s = receive_at s.framed s

  abbrev Handled : Shadowed → Option Conn → Received → Type 0
  Handled s none r = r.handled ≡ none
  Handled s (some c) r =
      (out : Served × Conn) × (r.handled ≡ some out)
      × (Authenticated h token c out.1 ⊎ Refused h token out)
      × (out.1.closed ≡ true)
      × (r.on_close_calls ≡ (if s.has_on_close then 1 else 0))

  at-Handled :
      (s : Shadowed) (x : Option Conn)
      → Handled s x (receive_at x s) × ((receive_at x s).raw_closed ≡ s.fails)
  unfolding receive_at new_connection_ex
  at-Handled s none = (refl, refl)
  at-Handled s (some c) =
      let (trusted, closed) = handle_conn_guarded h token stealth direct starts dials c in
      ((_, refl, trusted, closed, refl), refl)

  -- A connection to the stealth server reaches the tunnel only if the peer proved that it knows the
  -- token twice: to shadowtls, and in the handshake inside. Any other one is relayed to the real
  -- site, or was rejected inside and closed. A handled connection is closed in the end, and its
  -- `onClose`, if it has one, was called once. The raw connection is closed where shadowtls
  -- reports an error.
  stealth_guarded :
      (s : Shadowed) → Handled s s.framed (receive s) × ((receive s).raw_closed ≡ s.fails)
  unfolding receive
  stealth_guarded s = at-Handled s s.framed
