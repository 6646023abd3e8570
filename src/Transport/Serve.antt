-- ===== src/Transport/Serve.antt =====
-- internal/transport: `Serve` of the server with the listener that it runs (server.go, stealth.go,
-- udp.go).
-- A connection is a number; what the libraries and the network answer are parameters.
pub mod Fails
use g_tun.Prelude.{
  ℕ, Bytes, bytes_eq, Bool, true, false, Option, none, some, List, [], ◌∷◌, map, if◌then◌else◌,
}
use g_tun.Result.{
  Result, ok, err, Error, listen, accept, create_service, http_failed, unsupported_protocol,
}
use g_tun.Proto.{
  Name, tcp, udp, ws, wss, tcp_mux, ws_mux, wss_mux, utcp_mux, quic, stealth, is_one_of,
}
use g_tun.Auth.Mac.{Hmac}
use g_tun.Config.Kcp.{Kcp}
use g_tun.Transport.Kcp.{Ciphers, Tuning, kcp_block_crypt, tune_kcp}
use g_tun.Transport.Udp.Loop.{server_relay}
use g_tun.Netutil.Accept.{Event, accept_loop}

-- The connections that were handed to the connection's handler, and what was returned: `none` while
-- it serves.
pub record Serving : Type 0 where
  pub handled : List ℕ
  pub tunings : List Tuning
  pub result : Option (Result (Unit {0}))

abbrev pub refuses : Error → Serving
refuses e = record { handled = []; tunings = []; result = some (err e) }

-- `AcceptLoop` returns nil only.
abbrev pub over : Bool → Option (Result (Unit {0}))
over false = none
over true = some (ok tt)

unfoldable pub accept_all : List Event → Serving
accept_all events =
    let t = accept_loop 0 events in
    record { handled = t.handled; tunings = []; result = over t.returned }

-- `serveTCP` behind the listener's address.
unfoldable pub serve_tcp : Bool → List Event → Serving
unfolding accept_all
serve_tcp listens events = if listens then accept_all events else refuses listen

-- A request whose path is that of the protocol: the connection, and whether its upgrade succeeds.
pub record Request : Type 0 where
  pub conn : ℕ
  pub upgrades : Bool

upgraded : List Request → List ℕ
upgraded [] = []
upgraded (q ∷ qs) = let rest = upgraded qs in if q.upgrades then q.conn ∷ rest else rest

-- How `ListenAndServe` ends: by the `Close` of the server, or by another error.
pub data HttpEnd : Type 0 where
  still_serving server_closed http_error : HttpEnd

http_result : HttpEnd → Option (Result (Unit {0}))
http_result still_serving = none
http_result server_closed = some (ok tt)
http_result http_error = some (err http_failed)

unfoldable pub serve_web_socket : List Request → HttpEnd → Serving
unfolding upgraded http_result
serve_web_socket requests end = record {
  handled = upgraded requests;
  tunings = [];
  result = http_result end;
}

-- A result of `Accept` of a QUIC listener: a connection, or an error and whether the context is done.
pub data QuicEvent : Type 0 where
  accepted : ℕ → QuicEvent
  failed : Bool → QuicEvent

unfoldable pub accept_quic : List QuicEvent → Serving
accept_quic [] = record { handled = []; tunings = []; result = none }
accept_quic (accepted c ∷ es) =
    let rest = accept_quic es in record rest { handled = c ∷ rest.handled }
accept_quic (failed true ∷ es) = record { handled = []; tunings = []; result = some (ok tt) }
accept_quic (failed false ∷ es) = refuses accept

unfoldable pub serve_quic : Bool → List QuicEvent → Serving
unfolding accept_quic
serve_quic listens events = if listens then accept_quic events else refuses listen

-- `creates` tells whether shadowtls.NewService succeeds.
unfoldable pub serve_stealth : Bool → Bool → List Event → Serving
unfolding accept_all
serve_stealth creates listens events =
    if creates
    then if listens then accept_all events else refuses listen
    else refuses create_service

-- `serveUDP`; the relay's own result comes from its loop.
udp_result : {A : Type 0} → Result A → Option (Result (Unit {0})) → Option (Result (Unit {0}))
udp_result (err e) result = some (err e)
udp_result (ok r) result = result

-- Each accepted session is tuned first.
tuned : Kcp → Serving → Serving
tuned k s = record s { tunings = map (λ _. tune_kcp k) s.handled }

kcp_serving : {A : Type 0} → Kcp → Bool → List Event → Result A → Serving
unfolding accept_all tuned
kcp_serving k listens events (err e) = refuses e
kcp_serving k listens events (ok block) =
    if listens then tuned k (accept_all events) else refuses listen

-- What the listeners of all protocols meet.
pub record Site : Type 0 where
  pub listens : Bool
  pub creates : Bool
  pub resolves : Bool
  pub events : List Event
  pub quic_events : List QuicEvent
  pub requests : List Request
  pub http_end : HttpEnd
  pub relay : Option (Result (Unit {0}))

module _ (h : Hmac) (lib : Ciphers) (token : Bytes) (k : Kcp) where
  unfoldable pub serve_kcp : Bool → List Event → Serving
  unfolding kcp_serving
  serve_kcp listens events = kcp_serving k listens events (kcp_block_crypt h lib token)

  unfoldable pub serve_udp : Bool → Bool → Option (Result (Unit {0})) → Serving
  unfolding udp_result
  serve_udp resolves listens result = record {
    handled = [];
    tunings = [];
    result = udp_result (server_relay h token resolves listens) result;
  }

  -- `Serve`.
  unfoldable pub serving : Name → Site → Serving
  unfolding is_one_of
  serving n s =
      if is_one_of n (tcp ∷ tcp_mux ∷ [])
      then serve_tcp s.listens s.events
      else if is_one_of n (ws ∷ wss ∷ ws_mux ∷ wss_mux ∷ [])
      then serve_web_socket s.requests s.http_end
      else if bytes_eq n utcp_mux
      then serve_kcp s.listens s.events
      else if bytes_eq n quic
      then serve_quic s.listens s.quic_events
      else if bytes_eq n udp
      then serve_udp s.resolves s.listens s.relay
      else if bytes_eq n stealth
      then serve_stealth s.creates s.listens s.events
      else refuses unsupported_protocol
