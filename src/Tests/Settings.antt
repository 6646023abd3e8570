-- ===== src/Tests/Settings.antt =====
-- The message with the transport settings.
use g_tun.Prelude.{◌≡◌, ◌↔◌, refl, arith, codes, Bytes, some, [], ◌++◌, inl, inr}
use g_tun.Result.{ok}
use g_tun.Proto.{utcp_mux}
use g_tun.Auth.Io.{run}
use g_tun.Config.Kcp.{default_kcp, validate_kcp}
use g_tun.Control.{Settings, Json, send, receive}
use g_tun.Control.Receive.{IsRunnable, Accepted, announced_sound, receive_iff}
use g_tun.Control.RoundTrip.{receive-send}
use g_tun.Tests.Samples.{sample_hmac, token, client_nonce, server_nonce, conn}

abbrev announced : Settings
announced = record { protocol = utcp_mux; port = codes "8081"; kcp = some default_kcp }

abbrev body : Bytes
body = codes "{\"protocol\":\"utcpmux\",\"port\":\"8081\"}"

abbrev sample_json : Json
sample_json = record { marshal = λ s. some body; unmarshal = λ b. some announced }

abbrev channel : Bytes
channel = client_nonce ++ server_nonce

announced-IsRunnable : IsRunnable announced
unfolding validate_kcp
announced-IsRunnable = record {
  known = inr (inr (inr (inr (inr (inr (inr (inl refl)))))));
  kcp = announced_sound (some default_kcp) refl;
}

abbrev wire : Bytes
wire =
    (run (send sample_hmac sample_json token channel announced) (conn [] [])).1.output
    ++ codes "more"

receive-send_example :
    run (receive sample_hmac sample_json token channel) (conn wire [])
    ≡ (ok announced, conn (codes "more") [])
receive-send_example =
    receive-send sample_hmac sample_json token channel announced body (codes "more") (conn [] [])
      (conn wire []) 3 refl refl (omega arith) announced-IsRunnable refl refl refl

receive_iff_example :
    (run (receive sample_hmac sample_json token channel) (conn wire [])
      ≡ (ok announced, conn (codes "more") []))
    ↔ Accepted sample_hmac sample_json token channel
        (conn wire [])
        announced
        (conn (codes "more") [])
receive_iff_example =
    receive_iff sample_hmac sample_json token channel (conn wire []) (conn (codes "more") [])
      announced
