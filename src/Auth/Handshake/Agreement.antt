-- ===== src/Auth/Handshake/Agreement.antt =====
-- internal/auth/auth.go: the two sides of the handshake joined by a connection.
use g_tun.Prelude.{
  ℕ, suc, ◌≡◌, ◌≢◌, refl, sym, ◌∙◌, Bytes, length, Bool, true, false, List, [], ◌∷◌, ◌++◌,
  append-nil, arith, take-append, drop-append, length-append, bytes_ne,
}
use g_tun.Result.{Result, auth_failed, send_client_proof, read_client_proof, Error}
use g_tun.Auth.Mac.{
  Hmac, Channel, label_client, label_server, sign, verify, verify_iff, transcript, length-sign,
}
use g_tun.Auth.Io.{Io, ◌>>=◌, ◌>>◌, reads, writes, raise_unless, raise, return}
use g_tun.Auth.Io.Duplex.{
  End, duplex, move-reads, move-reads_waits, move-draws, move-writes, move-return, move-raise,
  duplex_left, duplex_right, duplex_ended,
}
use g_tun.Auth.Handshake.{client_handshake, server_handshake}

raise_unless-true :
    {B : Type 0} (test : Bool) (e : Error) (k : Io (Result B))
    → test ≡ true
    → (raise_unless test e >> k) ≡ k
unfolding ◌>>◌
raise_unless-true test e k h = rw h

raise_unless-false :
    {B : Type 0} (test : Bool) (e : Error) (k : Io (Result B))
    → test ≡ false
    → (raise_unless test e >> k) ≡ raise e
unfolding ◌>>◌
raise_unless-false test e k h = rw h

-- The two ends before the first call: the random source of each holds its nonce.
module _ (h : Hmac) (client_token server_token client_nonce server_nonce : Bytes) where
  abbrev pub nonces : List Bytes
  nonces = client_nonce ∷ server_nonce ∷ []

  abbrev client_end : End (Result Channel)
  client_end = record {
    program = client_handshake h client_token;
    input = [];
    entropy = client_nonce;
  }

  abbrev server_end : End (Result Channel)
  server_end = record {
    program = server_handshake h server_token;
    input = [];
    entropy = server_nonce;
  }

  -- The rest of the client once it has the server's answer, and of the server once it has answered.
  abbrev pub client_rest : Io (Result Channel)
  client_rest = do
    writes (sign h client_token label_client nonces) send_client_proof
    return (transcript client_nonce server_nonce)

  abbrev pub server_rest : Io (Result Channel)
  server_rest = do
    client_tag ← reads 32 read_client_proof
    raise_unless (verify h server_token label_client client_tag nonces) auth_failed
    return (transcript client_nonce server_nonce)

  module _ (nc_size : length client_nonce ≡ 32) (ns_size : length server_nonce ≡ 32)
      (fuel : ℕ) where
    -- The first two messages: the client then tests the server's proof.
    exchange :
        duplex (suc (suc (suc (suc (suc (suc fuel)))))) client_end server_end
        ≡ duplex fuel
            (record {
              program =
                  raise_unless
                    (verify h client_token label_server
                      (sign h server_token label_server nonces)
                      nonces)
                    auth_failed
                  >> client_rest;
              input = [];
              entropy = [];
            })
            (record { program = server_rest; input = []; entropy = [] })
    unfolding client_handshake server_handshake
    exchange =
        duplex_left _ _ _ _ _ (move-draws _ _ _ 32 _ client_nonce [] (sym (append-nil _)) nc_size)
        ∙ duplex_left _ _ _ _ _ (move-writes _ _ _ client_nonce _)
        ∙ duplex_right _ _ _ _ _ (move-reads_waits _ _ _ 64 _ (omega arith))
            (move-reads _ _ _ 32 _ client_nonce [] (sym (append-nil _)) nc_size)
        ∙ duplex_right _ _ _ _ _ (move-reads_waits _ _ _ 64 _ (omega arith))
            (move-draws _ _ _ 32 _ server_nonce [] (sym (append-nil _)) ns_size)
        ∙ duplex_right _ _ _ _ _ (move-reads_waits _ _ _ 64 _ (omega arith))
            (move-writes _ _ _ (server_nonce ++ tag) _)
        ∙ duplex_left _ _ _ _ _
            (move-reads _ _ _ 64 _ (server_nonce ++ tag) [] (sym (append-nil _)) reply_size)
        ∙ rw (take-append 32 server_nonce tag ns_size, drop-append 32 server_nonce tag ns_size)
      where
        tag : Bytes
        tag = sign h server_token label_server nonces

        reply_size : length (server_nonce ++ tag) ≡ 64
        reply_size = omega (
          arith,
          length-append server_nonce tag,
          ns_size,
          length-sign h server_token label_server nonces,
        )

    -- A client whose token gives another proof than the server's ends with `ErrAuthFailed`, and has
    -- then sent nothing but its nonce: the server has no session, and still waits for the proof.
    handshake_wrong_token :
        sign h server_token label_server nonces ≢ sign h client_token label_server nonces
        → duplex (suc (suc (suc (suc (suc (suc fuel)))))) client_end server_end ≡ (
          record { program = raise auth_failed; input = []; entropy = [] },
          record { program = server_rest; input = []; entropy = [] },
        )
    unfolding verify
    handshake_wrong_token ne =
        exchange
        ∙ rw
            (raise_unless-false _ auth_failed client_rest
              (bytes_ne _ (sign h client_token label_server nonces) ne))
            (duplex_ended _ _ _ (move-raise _ _ _) (move-reads_waits _ _ _ 32 _ (omega arith)))

-- With one token on both sides the two ends of a connection finish the handshake, whatever the
-- nonces are: each returns the same session, named by both nonces, and no byte is left over.
handshake_agrees :
    (h : Hmac) (token client_nonce server_nonce : Bytes) (fuel : ℕ)
    → length client_nonce ≡ 32
    → length server_nonce ≡ 32
    → duplex
        (suc (suc (suc (suc (suc (suc (suc (suc fuel))))))))
        (client_end h token token client_nonce server_nonce)
        (server_end h token token client_nonce server_nonce)
      ≡ (
        record { program = return (client_nonce ++ server_nonce); input = []; entropy = [] },
        record { program = return (client_nonce ++ server_nonce); input = []; entropy = [] },
      )
unfolding transcript
handshake_agrees h token nc ns fuel nc_size ns_size =
    exchange h token token nc ns nc_size ns_size (suc (suc fuel))
    ∙ rw
        (raise_unless-true _ auth_failed (client_rest h token token nc ns)
          ((verify_iff h token label_server _ (nc ∷ ns ∷ [])).1 refl))
        (duplex_left _ _ _ _ _ (move-writes _ _ _ tag _)
          ∙ duplex_right _ _ _ _ _ (move-return _ _ _) (
              move-reads _ _ _ 32 _ tag [] (sym (append-nil _))
                (length-sign h token label_client _))
          ∙ rw
              (raise_unless-true _ auth_failed (return (nc ++ ns))
                ((verify_iff h token label_client tag (nc ∷ ns ∷ [])).1 refl))
              (duplex_ended _ _ _ (move-return _ _ _) (move-return _ _ _)))
  where
    tag : Bytes
    tag = sign h token label_client (nc ∷ ns ∷ [])
