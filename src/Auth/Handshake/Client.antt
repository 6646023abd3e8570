-- ===== src/Auth/Handshake/Client.antt =====
-- internal/auth/auth.go: what `ClientHandshake` accepts.
use g_tun.Prelude.{
  ℕ, suc, ◌≡◌, ◌↔◌, refl, Bytes, length, [], ◌∷◌, ◌++◌, arith, ◌∙◌, sym, ap, take, drop,
  take-append, drop-append, take-append-drop, length-take, length-append,
}
use g_tun.Result.{ok}
use g_tun.Auth.Mac.{
  Hmac, Channel, label_client, label_server, sign, verify_iff, transcript, length-sign,
}
use g_tun.Auth.Io.{Conn, run}
use g_tun.Auth.Io.Steps.{
  reads_inv, draws_inv, writes_inv, raise_unless_inv, return_inv, reads_full, draws_full,
  writes_done, raise_unless_passed, return_done,
}
use g_tun.Auth.Handshake.{client_handshake}

module _ (h : Hmac) (token : Bytes) where
  -- What an accepted server sent, a nonce and the proof for it and the client's own nonce, and the
  -- connection that is left.
  pub record Proved (c : Conn) (ch : Channel) (c' : Conn) : Type 0 where
    pub client_nonce : Bytes
    pub server_nonce : Bytes
    pub rest : Bytes
    pub unused : Bytes
    pub left : ℕ
    pub client_size : length client_nonce ≡ 32
    pub server_size : length server_nonce ≡ 32
    pub drawn : c.entropy ≡ client_nonce ++ unused
    pub received :
        c.input
        ≡ (server_nonce ++ sign h token label_server (client_nonce ∷ server_nonce ∷ [])) ++ rest
    pub budget : c.budget ≡ suc (suc left)
    pub channel : ch ≡ client_nonce ++ server_nonce
    pub final : c' ≡ record c {
      input = rest;
      output =
          (c.output ++ client_nonce)
          ++ sign h token label_client (client_nonce ∷ server_nonce ∷ []);
      entropy = unused;
      budget = left;
    }

  client_handshake_sound :
      (c c' : Conn) (ch : Channel) → run (client_handshake h token) c ≡ (ok ch, c') → Proved c ch c'
  unfolding client_handshake transcript
  client_handshake_sound c c' ch e = draws_inv c _ _ _ e λ nc unused drawn nc_size e1.
      writes_inv _ _ _ _ e1 λ b budget e2. reads_inv _ _ _ _ e2 λ reply rest got size e3.
        raise_unless_inv _ _ _ _ e3 λ valid e4. writes_inv _ _ _ _ e4 λ left budget' e5.
          return_inv _ _ e5 λ channel final. record {
            client_nonce = nc;
            server_nonce = take 32 reply;
            rest = rest;
            unused = unused;
            left = left;
            client_size = nc_size;
            server_size = omega (arith, length-take 32 reply);
            drawn = drawn;
            received =
                got
                ∙ ap (λ (r : Bytes). r ++ rest)
                    (sym (take-append-drop 32 reply)
                      ∙ ap (◌++◌ (take 32 reply))
                          ((verify_iff h token label_server (drop 32 reply) _).0 valid));
            budget = rw budget (ap suc budget');
            channel = channel;
            final = final;
          }

  client_handshake_complete :
      (c c' : Conn) (ch : Channel) → Proved c ch c' → run (client_handshake h token) c ≡ (ok ch, c')
  unfolding client_handshake transcript
  client_handshake_complete c c' ch p =
      draws_full _ c p.client_nonce p.unused _ _ p.drawn p.client_size
      ∙ writes_done _ _ _ (suc p.left) _ p.budget
      ∙ reads_full _ _ (p.server_nonce ++ tag) p.rest _ _ p.received (
          omega (
            arith,
            length-append p.server_nonce tag,
            p.server_size,
            length-sign h token label_server (p.client_nonce ∷ p.server_nonce ∷ []),
          ))
      ∙ rw
          (
            take-append 32 p.server_nonce tag p.server_size,
            drop-append 32 p.server_nonce tag p.server_size,
          )
          (raise_unless_passed _ _ _ _ ((verify_iff h token label_server tag _).1 refl)
            ∙ writes_done _ _ _ p.left _ refl
            ∙ return_done _ _ _ _ p.channel p.final)
    where
      tag : Bytes
      tag = sign h token label_server (p.client_nonce ∷ p.server_nonce ∷ [])

  -- `ClientHandshake` returns a session exactly if the peer answered the client's nonce with a nonce
  -- and the server's proof for both. The session is named by both nonces, and the client has sent
  -- its nonce and its own proof.
  pub client_handshake_iff :
      (c c' : Conn) (ch : Channel)
      → (run (client_handshake h token) c ≡ (ok ch, c')) ↔ Proved c ch c'
  client_handshake_iff c c' ch = (client_handshake_sound c c' ch, client_handshake_complete c c' ch)
