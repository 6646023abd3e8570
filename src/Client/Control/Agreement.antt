-- ===== src/Client/Control/Agreement.antt =====
-- internal/client/client.go and internal/server/server.go: `runControl` and `handleControl` at the
-- two ends of one connection.
use g_tun.Prelude.{
  ℕ, Bool, true, ◌≤◌, ◌≡◌, refl, sym, ap, ◌∙◌, Bytes, length, some, false, [], ◌∷◌, ◌++◌,
  append-nil, arith,
}
use g_tun.Result.{Result}
use g_tun.Auth.Mac.{Hmac, label_client, label_server, sign}
use g_tun.Auth.Io.{Conn, run}
use g_tun.Auth.Io.Sequence.{run-bind}
use g_tun.Config.Client
use g_tun.Config.Server
use g_tun.Control.{Settings, Json, put_uint16, frame}
use g_tun.Client.Runner.{Runner, World, apply}
use g_tun.Client.Control.{Attempt, fetch, after_apply, after_fetch, run_control}
use g_tun.Client.Control.Trusted.{Fetched, fetch_complete, applied_ends}
use g_tun.Server.{Greeted, connected, announce, handle_control}
use g_tun.Server.Greet.{Welcomed, handle_control_iff}
use g_tun.Server.Start.{announce-IsRunnable}

-- What each end sends for one exchange: the nonces, and the encoded settings.
module _ (h : Hmac) (json : Json) (token client_nonce server_nonce body : Bytes) where
  abbrev pub from_client : Bytes
  from_client = client_nonce ++ sign h token label_client (client_nonce ∷ server_nonce ∷ [])

  abbrev pub from_server : Bytes
  from_server =
      (server_nonce ++ sign h token label_server (client_nonce ∷ server_nonce ∷ []))
      ++ frame h json token (client_nonce ++ server_nonce) body

  -- The connection as each end sees it: what the peer will send, and the end's own random bytes.
  abbrev pub client_side : Conn
  client_side = record {
    input = from_server;
    output = [];
    entropy = client_nonce;
    budget = 4;
    armed = false;
    closed = false;
  }

  abbrev pub server_side : Conn
  server_side = record {
    input = from_client;
    output = [];
    entropy = server_nonce;
    budget = 4;
    armed = false;
    closed = false;
  }

module _ (h : Hmac) (json : Json) (cfg : Client.Client) (scfg : Server.Server)
    (client_nonce server_nonce body : Bytes) (valid : Server.IsValid scfg)
    (same : cfg.token ≡ scfg.token) (client_size : length client_nonce ≡ 32)
    (server_size : length server_nonce ≡ 32) (encoded : json.marshal (announce scfg) ≡ some body)
    (decoded : json.unmarshal body ≡ some (announce scfg)) (small : length body ≤ 4096) where
  -- Each end's view, and what it has read and written in the end.
  abbrev client : Conn
  client = client_side h json cfg.token client_nonce server_nonce body

  abbrev server : Conn
  server = server_side h json scfg.token client_nonce server_nonce body

  abbrev sent_all : Conn → Bytes → ℕ → Bool → Conn
  sent_all c output budget armed = record c {
    input = [];
    output = output;
    entropy = [];
    budget = budget;
    armed = armed;
  }

  abbrev answer : Bytes
  answer = server_nonce ++ sign h scfg.token label_server (client_nonce ∷ server_nonce ∷ [])

  served :
      Welcomed h json scfg.token
        (announce scfg)
        server
        (sent_all server (from_server h json scfg.token client_nonce server_nonce body) 0 false)
  served = record {
    start = 3;
    left = 0;
    channel = client_nonce ++ server_nonce;
    proved = sent_all server answer 2 true;
    told = sent_all server (from_server h json scfg.token client_nonce server_nonce body) 1 true;
    budget = refl;
    handshake = record {
      client_nonce = client_nonce;
      server_nonce = server_nonce;
      rest = [];
      unused = [];
      left = 2;
      client_size = client_size;
      server_size = server_size;
      received = ap (◌++◌ client_nonce) (sym (append-nil _));
      drawn = sym (append-nil _);
      budget = refl;
      channel = refl;
      final = refl;
    };
    sent = record {
      body = body;
      left = 1;
      encoded = encoded;
      small = small;
      budget = refl;
      final = refl;
    };
    budget_left = refl;
    final = refl;
  }

  fetched :
      Fetched h json cfg client
        (announce scfg)
        (sent_all client (from_client h json cfg.token client_nonce server_nonce body) 0 false)
  unfolding frame
  fetched = record {
    start = 3;
    left = 0;
    channel = client_nonce ++ server_nonce;
    proved =
        record (sent_all client (from_client h json cfg.token client_nonce server_nonce body) 1
          true) { input = frame h json cfg.token (client_nonce ++ server_nonce) body };
    told = sent_all client (from_client h json cfg.token client_nonce server_nonce body) 1 true;
    budget = refl;
    handshake = record {
      client_nonce = client_nonce;
      server_nonce = server_nonce;
      rest = frame h json cfg.token (client_nonce ++ server_nonce) body;
      unused = [];
      left = 1;
      client_size = client_size;
      server_size = server_size;
      drawn = sym (append-nil _);
      received = refl;
      budget = refl;
      channel = refl;
      final = refl;
    };
    received = record {
      header = put_uint16 (length body);
      body = body;
      rest = [];
      header_size = refl;
      small = omega arith;
      body_size = omega arith;
      received = ap (◌++◌ (put_uint16 (length body))) (sym (append-nil _));
      decoded = decoded;
      runnable = announce-IsRunnable scfg valid;
      final = refl;
    };
    budget_left = refl;
    final = refl;
  }

  -- The client's connection after `fetch`.
  abbrev reached : Conn
  reached = sent_all client (from_client h json cfg.token client_nonce server_nonce body) 0 false

  at_client :
      (w : World) (r : Runner)
      → run (run_control w cfg h json r) client
        ≡ run (after_apply (apply w cfg (announce scfg) r)) reached
  unfolding run_control after_fetch
  at_client w r =
      run-bind (fetch h json cfg) (after_fetch w cfg r) client
      ∙ ap (λ (x : Result Settings × Conn). run (after_fetch w cfg r x.0) x.1)
          (fetch_complete h json cfg client reached (announce scfg) fetched)

  -- The server has a valid configuration, both ends have one token, and the encoded settings are at
  -- most 4096 bytes that the decoder turns back into them. Then the two ends finish the exchange,
  -- whatever their nonces of 32 bytes are: each sends exactly what the other one reads, the server
  -- holds the client's connection, and the client applies exactly the settings that the server
  -- announces.
  control_agrees :
      (w : World) (r : Runner)
      → ((run (handle_control h json scfg.token (announce scfg)) server).0 ≡ connected)
        × ((run (handle_control h json scfg.token (announce scfg)) server).1.output ≡ client.input)
        × ((run (run_control w cfg h json r) client).0.runner ≡ (apply w cfg (announce scfg) r).1)
        × ((run (run_control w cfg h json r) client).1.output ≡ server.input)
  control_agrees w r =
      let at_server =
        (handle_control_iff h json scfg.token (announce scfg) server _).1 (_, served, refl) in
      let out = apply w cfg (announce scfg) r in
      let (runner, _, _, output) = applied_ends out reached in
      (
        ap (λ (x : Greeted × Conn). x.0) at_server,
        rw same (ap (λ (x : Greeted × Conn). x.1.output) at_server),
        ap (λ (x : Attempt × Conn). x.0.runner) (at_client w r) ∙ runner,
        rw (sym same) (ap (λ (x : Attempt × Conn). x.1.output) (at_client w r) ∙ output),
      )
