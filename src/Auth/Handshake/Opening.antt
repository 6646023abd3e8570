-- ===== src/Auth/Handshake/Opening.antt =====
-- internal/auth/auth.go: the handshake at the start of a longer exchange, under the deadlines that the
-- callers set (internal/client/client.go, internal/server/server.go, internal/transport/transport.go).
use g_tun.Prelude.{
  List, ℕ, suc, ◌≡◌, refl, ap, true, none, sym, ◌∙◌, Bytes, length, [], ◌∷◌, ◌++◌, append-nil,
  arith, take-append, drop-append, length-append,
}
use g_tun.Result.{Result, Error, auth_failed, read_client_proof}
use g_tun.Auth.Mac.{
  Hmac, label_client, label_server, sign, verify, verify_iff, length-sign, transcript,
}
use g_tun.Auth.Io.{Io, ◌>>=◌, ◌>>◌, sets_deadline, reads, raise_unless, return}
use g_tun.Auth.Io.Duplex.{End, more, duplex, move_of, duplex_left, duplex_right}
use g_tun.Auth.Io.Duplex.Nested.{
  then-reads, then-reads_waits, then-draws, then-writes, move-deadline, then-raise_unless,
  then-return,
}
use g_tun.Auth.Handshake.{client_handshake, server_handshake}

-- What the two sides do once the handshake has given them the session, or after an error.
module _ {A B : Type 0} (h : Hmac) (token client_nonce server_nonce : Bytes) (e : Error)
    (client_rest : Bytes → Io (Result A)) (server_rest : Bytes → Io (Result B)) where
  abbrev client_end : End (Result A)
  client_end = record {
    program = sets_deadline true e >> (client_handshake h token >>= client_rest);
    input = [];
    entropy = client_nonce;
  }

  abbrev server_end : End (Result B)
  server_end = record {
    program = sets_deadline true e >> (server_handshake h token >>= server_rest);
    input = [];
    entropy = server_nonce;
  }

  abbrev nonces : List Bytes
  nonces = client_nonce ∷ server_nonce ∷ []

  abbrev channel : Bytes
  channel = transcript client_nonce server_nonce

  -- The client's proof, and the server that has it to test.
  abbrev answer : Bytes
  answer = sign h token label_client nonces

  abbrev testing : Bytes → End (Result B)
  testing input = record {
    program =
        (do
          client_tag ← reads 32 read_client_proof
          raise_unless (verify h token label_client client_tag nonces) auth_failed
          return channel)
        >>= server_rest;
    input = input;
    entropy = [];
  }

  -- With one token on both sides, nine calls finish the client's handshake.
  pub opening :
      (fuel : ℕ)
      → length client_nonce ≡ 32
      → length server_nonce ≡ 32
      → duplex (more 9 fuel) client_end server_end
        ≡ duplex fuel
            (record { program = client_rest channel; input = []; entropy = [] })
            (testing answer)
  unfolding client_handshake server_handshake transcript
  opening fuel nc_size ns_size =
      duplex_left _ _ _ _ _ (move-deadline _ _ _ true _)
      ∙ duplex_left _ _ _ _ _ (then-draws _ _ _ _ 32 _ client_nonce [] (sym (append-nil _)) nc_size)
      ∙ duplex_left _ _ _ _ _ (then-writes _ _ _ _ client_nonce _)
      ∙ duplex_right _ _ _ _ _ (then-reads_waits _ _ _ _ 64 _ (omega arith))
          (move-deadline _ _ _ true _)
      ∙ duplex_right _ _ _ _ _ (then-reads_waits _ _ _ _ 64 _ (omega arith))
          (then-reads _ _ _ _ 32 _ client_nonce [] (sym (append-nil _)) nc_size)
      ∙ duplex_right _ _ _ _ _ (then-reads_waits _ _ _ _ 64 _ (omega arith))
          (then-draws _ _ _ _ 32 _ server_nonce [] (sym (append-nil _)) ns_size)
      ∙ duplex_right _ _ _ _ _ (then-reads_waits _ _ _ _ 64 _ (omega arith))
          (then-writes _ _ _ _ (server_nonce ++ tag) _)
      ∙ duplex_left _ _ _ _ _
          (then-reads _ _ _ _ 64 _ (server_nonce ++ tag) [] (sym (append-nil _)) reply_size)
      ∙ rw (take-append 32 server_nonce tag ns_size, drop-append 32 server_nonce tag ns_size)
          (rw
            (then-raise_unless _ client_rest _ _
              ((verify_iff h token label_server tag nonces).1 refl))
            (duplex_left _ _ _ _ _ (then-writes _ _ _ _ answer _)
              ∙ rw (then-return client_rest (client_nonce ++ server_nonce)) refl))
    where
      tag : Bytes
      tag = sign h token label_server nonces

      reply_size : length (server_nonce ++ tag) ≡ 64
      reply_size =
          omega (
            arith,
            length-append server_nonce tag,
            ns_size,
            length-sign h token label_server nonces,
          )

  -- One more call finishes the server's, once the other side waits or has ended.
  pub accepting :
      (fuel : ℕ) (l : End (Result A)) (input : Bytes)
      → input ≡ answer
      → move_of l ≡ none
      → duplex (suc fuel) l (testing input)
        ≡ duplex fuel l (record { program = server_rest channel; input = []; entropy = [] })
  accepting fuel l input arrived waits =
      duplex_right _ _ _ _ _ waits (
        then-reads _ _ _ _ 32 _ answer [] (arrived ∙ sym (append-nil _))
          (length-sign h token label_client nonces))
      ∙ rw
          (
            then-raise_unless _ server_rest _ _
                ((verify_iff h token label_client answer nonces).1 refl),
            then-return server_rest channel,
          )
          (ap
            (λ (x : Bytes).
              duplex fuel (record l { input = x })
                (record { program = server_rest channel; input = []; entropy = [] }))
            (append-nil l.input))
