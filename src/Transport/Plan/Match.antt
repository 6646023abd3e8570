-- ===== src/Transport/Plan/Match.antt =====
-- internal/transport/server.go and client.go: the two sides of a protocol fit.
use g_tun.Prelude.{Bytes, ◌≡◌, All, arith}
use g_tun.Result.{ok}
use g_tun.Proto.{supported, parse, mux, web_socket, tls}
use g_tun.Proto.Classes.{parse-ind}
use g_tun.Transport.Plan.{serve, run_plan}

plans_table : All (λ n. serve n ≡ ok (run_plan n)) supported
unfolding serve run_plan mux web_socket tls
plans_table = ground arith

-- For every protocol that `Parse` accepts the server listens, and on the carrier that the client
-- dials: the same kind of connection, for a WebSocket the same path and the same use of TLS, and
-- the same way of putting streams on it.
pub serve-run_plan : (s n : Bytes) → parse s ≡ ok n → serve n ≡ ok (run_plan n)
serve-run_plan s n p = parse-ind (λ m. serve m ≡ ok (run_plan m)) s n plans_table p
