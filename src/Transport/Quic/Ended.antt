-- ===== src/Transport/Quic/Ended.antt =====
-- internal/transport: the two ends of the first stream of a QUIC connection, call by call: `connectQUIC`
-- (client.go) and `serveQUICConn` (server.go).
use g_tun.Prelude.{
  ℕ, ◌≡◌, refl, ◌∙◌, Bytes, length, true, false, [], ◌∷◌, ◌++◌, append-nil, ap, ◌⊎◌, inl, inr,
}
use g_tun.Result.{Result, ok, err, auth_failed, read_client_proof}
use g_tun.Auth.Mac.{Hmac, sign, label_client}
use g_tun.Auth.Io.{pure}
use g_tun.Auth.Io.Duplex.{more}
use g_tun.Auth.Io.Wire.{Link, wire, wire_on, wire_over}
use g_tun.Transport.Conn.Joined.{end_with}
use g_tun.Transport.Conn.Greeted.{
  Differ, waiting, opening_same, opening_wrong, hears_same, hears_close,
}
use g_tun.Transport.Quic.{client_auth, server_auth, close_auth}

module _ (h : Hmac) (client_token server_token client_nonce server_nonce : Bytes)
    (nc_size : length client_nonce ≡ 32) (ns_size : length server_nonce ≡ 32) where
  abbrev pub auth_stream : Link (Result (Unit {0})) (Result (Unit {0}))
  auth_stream = record {
    left = end_with (client_auth h client_token) client_nonce;
    right = end_with (server_auth h server_token) server_nonce;
    left_closed = false;
    right_closed = false;
  }

  -- The client's proof.
  abbrev proof : Bytes
  proof = sign h client_token label_client (client_nonce ∷ server_nonce ∷ [])

  abbrev ended :
      Result (Unit {0}) → Result (Unit {0}) → Link (Result (Unit {0})) (Result (Unit {0}))
  ended r r' = record {
    left = end_with (pure r) [];
    right = end_with (pure r') [];
    left_closed = true;
    right_closed = true;
  }

  abbrev pub Tokens : Type 0
  Tokens =
      (client_token ≡ server_token)
      ⊎ Differ close_auth close_auth h client_token server_token client_nonce server_nonce nc_size
          ns_size

  abbrev ending : Tokens → Link (Result (Unit {0})) (Result (Unit {0}))
  ending (inl same) = ended (ok tt) (ok tt)
  ending (inr differ) = ended (err auth_failed) (err read_client_proof)

  -- The authentication of a QUIC connection always comes to its end, call by call, whatever the nonces
  -- are, and its stream is then closed on both sides. With one token it succeeds on both, though the
  -- client closes the stream before the server has read its proof. With tokens that give different
  -- proofs the client fails with `ErrAuthFailed` and closes the connection, and the server, which
  -- waits for the client's proof, fails on reading it.
  pub quic_auth_ends :
      (tokens : Tokens) (fuel : ℕ) → wire (more 14 fuel) auth_stream ≡ ending tokens
  unfolding client_auth server_auth close_auth
  quic_auth_ends (inl same) fuel =
      opening_same close_auth close_auth h client_token server_token client_nonce server_nonce
        nc_size ns_size (more 4 fuel) same
      ∙ wire_on _ _
          (waiting close_auth close_auth h client_token server_token client_nonce server_nonce
            nc_size ns_size true (ok tt) (proof ++ []))
          refl
      ∙ ap
          (λ (b : Bytes). wire (more 3 fuel) (
            waiting close_auth close_auth h client_token server_token client_nonce server_nonce
              nc_size ns_size true (ok tt) b))
          (append-nil proof)
      ∙ hears_same close_auth close_auth h client_token server_token client_nonce server_nonce
          nc_size ns_size (more 1 fuel) true (ok tt) same
      ∙ wire_on _ _ (ended (ok tt) (ok tt)) refl
      ∙ wire_over _ _ refl
  quic_auth_ends (inr differ) fuel =
      opening_wrong close_auth close_auth h client_token server_token client_nonce server_nonce
        nc_size ns_size (more 6 fuel) differ
      ∙ wire_on _ _
          (waiting close_auth close_auth h client_token server_token client_nonce server_nonce
            nc_size ns_size true (err auth_failed) [])
          refl
      ∙ hears_close close_auth close_auth h client_token server_token client_nonce server_nonce
          nc_size ns_size (more 4 fuel) (err auth_failed)
      ∙ wire_on _ _ (ended (err auth_failed) (err read_client_proof)) refl
      ∙ wire_over _ _ refl
