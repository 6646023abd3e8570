-- ===== src/Transport/Serve/Fails.antt =====
-- internal/transport: why `Serve` of a known protocol returns an error.
use g_tun.Prelude.{ℕ, ◌≡◌, refl, Bytes, Bool, true, false, Option, none, some, List, [], ◌∷◌, All}
use g_tun.Result.{
  Result, ok, err, Error, listen, accept, create_service, http_failed, resolve_address,
}
use g_tun.Proto.{Name, udp, quic, stealth, supported, parse, web_socket}
use g_tun.Proto.Classes.{parse-ind}
use g_tun.Auth.Mac.{Hmac}
use g_tun.Config.Kcp.{Kcp}
use g_tun.Netutil.Accept.{accept_loop}
use g_tun.Transport.Kcp.{Ciphers, TakesKeys, kcp_block_crypt_ok}
use g_tun.Transport.Udp.Loop.{server_relay}
use g_tun.Transport.Serve.{
  Serving, over, accept_all, serve_tcp, HttpEnd, still_serving, server_closed, http_error,
  http_result, serve_web_socket, QuicEvent, accepted, failed, accept_quic, serve_quic,
  serve_stealth, serve_udp, udp_result, serve_kcp, kcp_serving, tuned, Site, serving,
}

-- A protocol's listener fails in one of these ways.
pub data Failure (n : Name) (s : Site) (handled : List ℕ) : Error → Type 0 where
  -- No connection was taken.
  not_opened : s.listens ≡ false → handled ≡ [] → Failure n s handled listen
  http : web_socket n ≡ true → s.http_end ≡ http_error → Failure n s handled http_failed
  quic_accept : n ≡ quic → Failure n s handled accept
  stealth_service : n ≡ stealth → s.creates ≡ false → Failure n s handled create_service
  udp_target : n ≡ udp → s.resolves ≡ false → Failure n s handled resolve_address
  udp_relay : (e : Error) → n ≡ udp → s.relay ≡ some (err e) → Failure n s handled e

-- `P` holds of the error, if one was returned.
abbrev OnError : (Error → Type 0) → Option (Result (Unit {0})) → Type 0
OnError P none = Unit
OnError P (some (ok u)) = Unit
OnError P (some (err e)) = P e

abbrev Fails : Name → Site → Serving → Type 0
Fails n s v = OnError (Failure n s v.handled) v.result

over-Fails : (P : Error → Type 0) (b : Bool) → OnError P (over b)
over-Fails P true = tt
over-Fails P false = tt

tcp-Fails : (n : Name) (s : Site) (b : Bool) → s.listens ≡ b → Fails n s (serve_tcp b s.events)
unfolding serve_tcp accept_all
tcp-Fails n s true e = over-Fails _ (accept_loop 0 s.events).returned
tcp-Fails n s false e = not_opened e refl

web_socket-Fails :
    (n : Name) (s : Site) (end : HttpEnd)
    → web_socket n ≡ true
    → s.http_end ≡ end
    → Fails n s (serve_web_socket s.requests end)
unfolding serve_web_socket http_result
web_socket-Fails n s still_serving w e = tt
web_socket-Fails n s server_closed w e = tt
web_socket-Fails n s http_error w e = http w e

quic-Fails :
    (s : Site) (es : List QuicEvent) (handled : List ℕ)
    → OnError (Failure quic s handled) (accept_quic es).result
unfolding accept_quic
quic-Fails s [] handled = tt
quic-Fails s (accepted c ∷ es) handled = quic-Fails s es handled
quic-Fails s (failed true ∷ es) handled = tt
quic-Fails s (failed false ∷ es) handled = quic_accept refl

listen_quic-Fails :
    (s : Site) (b : Bool) → s.listens ≡ b → Fails quic s (serve_quic b s.quic_events)
unfolding serve_quic
listen_quic-Fails s true e = quic-Fails s s.quic_events _
listen_quic-Fails s false e = not_opened e refl

stealth-Fails :
    (s : Site) (b c : Bool)
    → s.creates ≡ b
    → s.listens ≡ c
    → Fails stealth s (serve_stealth b c s.events)
unfolding serve_stealth accept_all
stealth-Fails s false c e e' = stealth_service refl e
stealth-Fails s true true e e' = over-Fails _ (accept_loop 0 s.events).returned
stealth-Fails s true false e e' = not_opened e' refl

relay-Fails :
    (s : Site) (r : Option (Result (Unit {0}))) → s.relay ≡ r → OnError (Failure udp s []) r
relay-Fails s none e = tt
relay-Fails s (some (ok u)) e = tt
relay-Fails s (some (err x)) e = udp_relay x refl e

module _ (h : Hmac) (lib : Ciphers) (token : Bytes) (k : Kcp) (takes : TakesKeys lib)
    (s : Site) where
  udp-Fails :
      (b c : Bool)
      → s.resolves ≡ b
      → s.listens ≡ c
      → Fails udp s (serve_udp h lib token k b c s.relay)
  unfolding serve_udp udp_result server_relay
  udp-Fails false c e e' = udp_target refl e
  udp-Fails true false e e' = not_opened e' refl
  udp-Fails true true e e' = relay-Fails s s.relay refl

  kcp-Fails : (n : Name) (b : Bool) → s.listens ≡ b → Fails n s (serve_kcp h lib token k b s.events)
  unfolding serve_kcp kcp_serving tuned accept_all
  kcp-Fails n b e =
      let (block, made) = kcp_block_crypt_ok h lib token takes in rw made (go block b e)
    where
      go :
          (block : lib.Block) (c : Bool)
          → s.listens ≡ c
          → Fails n s (kcp_serving k c s.events (ok block))
      go block true e' = over-Fails _ (accept_loop 0 s.events).returned
      go block false e' = not_opened e' refl

  abbrev Known : Name → Type 0
  Known n = Fails n s (serving h lib token k n s)

  Known-table : All Known supported
  unfolding serving web_socket
  Known-table = (
    tcp-Fails _ s s.listens refl,
    (
      udp-Fails s.resolves s.listens refl refl,
      (
        web_socket-Fails _ s s.http_end refl refl,
        (
          web_socket-Fails _ s s.http_end refl refl,
          (
            tcp-Fails _ s s.listens refl,
            (
              web_socket-Fails _ s s.http_end refl refl,
              (
                web_socket-Fails _ s s.http_end refl refl,
                (
                  kcp-Fails _ s.listens refl,
                  (
                    listen_quic-Fails s s.listens refl,
                    (stealth-Fails s s.creates s.listens refl refl, tt),
                  ),
                ),
              ),
            ),
          ),
        ),
      ),
    ),
  )

  -- `Serve` of a protocol that `Parse` accepts returns an error only if the protocol's listener
  -- cannot be opened, before any connection was taken, or for a reason of that protocol: the failure
  -- of the HTTP server (WebSocket), of QUIC's `Accept`, of the ShadowTLS service (stealth), of the
  -- target's address or of a read (udp). The cipher of utcpmux never fails, if AES takes keys of 32
  -- bytes, and an accept loop never returns an error.
  pub serving_fails :
      (text n : Bytes) (e : Error)
      → parse text ≡ ok n
      → (serving h lib token k n s).result ≡ some (err e)
      → Failure n s (serving h lib token k n s).handled e
  serving_fails text n e known returned = rw returned at (parse-ind Known text n Known-table known)
