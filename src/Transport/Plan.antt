-- ===== src/Transport/Plan.antt =====
-- internal/transport/server.go and client.go: which listener a protocol has on the server, which
-- carrier on the client, and how streams are put on a connection.
pub mod Match
use g_tun.Prelude.{
  Bytes, codes, bytes_eq, Bool, true, false, ◌||◌, List, [], ◌∷◌, ◌++◌, if◌then◌else◌,
}
use g_tun.Result.{Result, ok, err, unsupported_protocol}
use g_tun.Proto.{
  Name, tcp, udp, ws, wss, tcp_mux, ws_mux, wss_mux, utcp_mux, quic, stealth, is_one_of, mux,
  web_socket, tls,
}

-- The way to the peer; a WebSocket has a path, and is secured by TLS or not.
pub data Carrier : Type 0 where
  tcp_conn kcp_session quic_conn udp_socket shadow_tls : Carrier
  web_socket_conn : Bool → Bytes → Carrier

-- What runs on it: one stream for each connection, smux streams, QUIC streams or datagrams.
pub data Streams : Type 0 where
  single smux quic_streams datagrams : Streams

pub record Plan : Type 0 where
  pub carrier : Carrier
  pub streams : Streams

-- `handleConn`: after the handshake.
conn_streams : Name → Streams
conn_streams n = if mux n then smux else single

ws_path : Name → Bytes
ws_path n = codes "/" ++ n

-- `Serve`, with the server that each case runs.
unfoldable pub serve : Name → Result Plan
unfolding is_one_of conn_streams ws_path
serve n =
    if is_one_of n (tcp ∷ tcp_mux ∷ [])
    then ok (record { carrier = tcp_conn; streams = conn_streams n })
    else if is_one_of n (ws ∷ wss ∷ ws_mux ∷ wss_mux ∷ [])
    then ok (record { carrier = web_socket_conn (tls n) (ws_path n); streams = conn_streams n })
    else if bytes_eq n utcp_mux
    then ok (record { carrier = kcp_session; streams = conn_streams n })
    else if bytes_eq n quic
    then ok (record { carrier = quic_conn; streams = quic_streams })
    else if bytes_eq n udp
    then ok (record { carrier = udp_socket; streams = datagrams })
    else if bytes_eq n stealth
    then ok (record { carrier = shadow_tls; streams = conn_streams n })
    else err unsupported_protocol

-- `dialCarrier`.
unfoldable dial_carrier : Name → Carrier
unfolding ws_path
dial_carrier n =
    if web_socket n
    then web_socket_conn (tls n) (ws_path n)
    else if bytes_eq n stealth
    then shadow_tls
    else if bytes_eq n utcp_mux
    then kcp_session
    else tcp_conn

-- `newDialer`.
unfoldable new_dialer : Name → Plan
unfolding dial_carrier
new_dialer n =
    if bytes_eq n quic
    then record { carrier = quic_conn; streams = quic_streams }
    else if mux n
    then record { carrier = dial_carrier n; streams = smux }
    else record { carrier = dial_carrier n; streams = single }

-- The client's `Run`.
unfoldable pub run_plan : Name → Plan
unfolding new_dialer
run_plan n =
    if bytes_eq n udp then record { carrier = udp_socket; streams = datagrams } else new_dialer n
