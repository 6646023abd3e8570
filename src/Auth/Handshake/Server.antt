-- ===== src/Auth/Handshake/Server.antt =====
-- internal/auth/auth.go: what `ServerHandshake` accepts.
use g_tun.Prelude.{ℕ, suc, ◌≡◌, ◌↔◌, refl, Bytes, length, [], ◌∷◌, ◌++◌, ◌∙◌}
use g_tun.Result.{ok}
use g_tun.Auth.Mac.{
  Hmac, Channel, label_client, label_server, sign, verify_iff, transcript, length-sign,
}
use g_tun.Auth.Io.{Conn, run}
use g_tun.Auth.Io.Steps.{
  reads_inv, draws_inv, writes_inv, raise_unless_inv, return_inv, reads_full, draws_full,
  writes_done, raise_unless_passed, return_done,
}
use g_tun.Auth.Handshake.{server_handshake}

module _ (h : Hmac) (token : Bytes) where
  -- What an accepted client sent, a nonce and the proof for that nonce and the server's own, and
  -- the connection that is left.
  pub record Proved (c : Conn) (ch : Channel) (c' : Conn) : Type 0 where
    pub client_nonce : Bytes
    pub server_nonce : Bytes
    pub rest : Bytes
    pub unused : Bytes
    pub left : ℕ
    pub client_size : length client_nonce ≡ 32
    pub server_size : length server_nonce ≡ 32
    pub received :
        c.input
        ≡ client_nonce ++ (sign h token label_client (client_nonce ∷ server_nonce ∷ []) ++ rest)
    pub drawn : c.entropy ≡ server_nonce ++ unused
    pub budget : c.budget ≡ suc left
    pub channel : ch ≡ client_nonce ++ server_nonce
    pub final : c' ≡ record c {
      input = rest;
      output =
          c.output
          ++ (server_nonce ++ sign h token label_server (client_nonce ∷ server_nonce ∷ []));
      entropy = unused;
      budget = left;
    }

  server_handshake_sound :
      (c c' : Conn) (ch : Channel) → run (server_handshake h token) c ≡ (ok ch, c') → Proved c ch c'
  unfolding server_handshake transcript
  server_handshake_sound c c' ch e = reads_inv c _ _ _ e λ nc r1 got nc_size e1.
      draws_inv _ _ _ _ e1 λ ns r2 drawn ns_size e2. writes_inv _ _ _ _ e2 λ b budget e3.
        reads_inv _ _ _ _ e3 λ tag r3 got' tag_size e4. raise_unless_inv _ _ _ _ e4 λ valid e5.
          return_inv _ _ e5 λ channel final. record {
            client_nonce = nc;
            server_nonce = ns;
            rest = r3;
            unused = r2;
            left = b;
            client_size = nc_size;
            server_size = ns_size;
            received = rw (got, got', (verify_iff h token label_client tag (nc ∷ ns ∷ [])).0 valid);
            drawn = drawn;
            budget = budget;
            channel = channel;
            final = final;
          }

  server_handshake_complete :
      (c c' : Conn) (ch : Channel) → Proved c ch c' → run (server_handshake h token) c ≡ (ok ch, c')
  unfolding server_handshake transcript
  server_handshake_complete c c' ch p =
      reads_full _ c p.client_nonce _ _ _ p.received p.client_size
      ∙ draws_full _ _ p.server_nonce p.unused _ _ p.drawn p.server_size
      ∙ writes_done _ _ _ p.left _ p.budget
      ∙ reads_full _ _ tag p.rest _ _ refl (length-sign h token label_client _)
      ∙ raise_unless_passed _ _ _ _ ((verify_iff h token label_client tag _).1 refl)
      ∙ return_done _ _ _ _ p.channel p.final
    where
      tag : Bytes
      tag = sign h token label_client (p.client_nonce ∷ p.server_nonce ∷ [])

  -- `ServerHandshake` returns a session exactly to a peer that sent a nonce and then the client's
  -- proof for that nonce and the nonce that the server drew. The session is named by both nonces,
  -- and the server has sent its nonce and its own proof.
  pub server_handshake_iff :
      (c c' : Conn) (ch : Channel)
      → (run (server_handshake h token) c ≡ (ok ch, c')) ↔ Proved c ch c'
  server_handshake_iff c c' ch = (server_handshake_sound c c' ch, server_handshake_complete c c' ch)
