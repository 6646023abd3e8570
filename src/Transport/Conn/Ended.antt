-- ===== src/Transport/Conn/Ended.antt =====
-- internal/transport: the two ends of a data connection with its closing, call by call: the client's
-- `dialAuthenticated` behind the dial (client.go) and the server's `handleConn` (server.go).
use g_tun.Prelude.{ℕ, ◌≡◌, refl, Bytes, length, Bool, true, false, List, [], ◌∙◌, ◌⊎◌, inl, inr}
use g_tun.Result.{Result, ok, err, authenticate, read_client_proof}
use g_tun.Proto.{Name, mux}
use g_tun.Auth.Mac.{Hmac}
use g_tun.Auth.Io.{Io, pure, bind, return, raise}
use g_tun.Auth.Io.Duplex.{more}
use g_tun.Auth.Io.Wire.{Link, wire, wire_on, wire_over}
use g_tun.Transport.Carrier.{after_handshake}
use g_tun.Transport.Conn.{Served, rejected, client_handshake_on, after_auth, handle_conn}
use g_tun.Transport.Conn.Greeted.{
  Differ, waiting, opening_same, opening_wrong, hears_same, hears_close,
}
use g_tun.Transport.Conn.Joined.{end_with, accepted, accepted_lem}

module _ (h : Hmac) (client_token server_token client_nonce server_nonce : Bytes) (protocol : Name)
    (direct starts : Bool) (dials : List Bool) (nc_size : length client_nonce ≡ 32)
    (ns_size : length server_nonce ≡ 32) where
  abbrev pub joined : Link (Result (Unit {0})) Served
  joined = record {
    left = end_with (bind (client_handshake_on h client_token) after_handshake) client_nonce;
    right = end_with (handle_conn h server_token protocol direct starts dials) server_nonce;
    left_closed = false;
    right_closed = false;
  }

  -- What `handleConn` does behind the handshake.
  abbrev after : Result (Unit {0}) → Io Served
  after = after_auth h server_token (mux protocol) direct starts dials

  abbrev refused : Link (Result (Unit {0})) Served
  refused = record {
    left = end_with (raise authenticate) [];
    right = end_with (pure (rejected read_client_proof)) [];
    left_closed = true;
    right_closed = true;
  }

  abbrev relaying : Link (Result (Unit {0})) Served
  relaying = record {
    left = end_with (return tt) [];
    right = end_with (pure (accepted protocol direct starts dials)) [];
    left_closed = false;
    right_closed = true;
  }

  -- The two tokens are the same, or the server's gives a proof that the client's does not give.
  abbrev pub Tokens : Type 0
  Tokens =
      (client_token ≡ server_token)
      ⊎ Differ after_handshake after h client_token server_token client_nonce server_nonce nc_size
          ns_size

  abbrev ending : Tokens → Link (Result (Unit {0})) Served
  ending (inl same) = relaying
  ending (inr differ) = refused

  -- A data connection always comes to the end of its opening, call by call, whatever the nonces are.
  -- With one token on both sides, the client's handshake returns without an error and its end stays
  -- open, and the server goes on to the stream, or to the streams of the smux session if that starts,
  -- and then closes; no byte is left over. With tokens that give different proofs, the client ends with
  -- an `authenticate` error and closes, and the server, which waits for the client's proof, is not
  -- left waiting: it ends with a `read client proof` error and closes too.
  pub data_connection_ends :
      (tokens : Tokens) (fuel : ℕ) → wire (more 13 fuel) joined ≡ ending tokens
  unfolding handle_conn after_handshake after_auth
  data_connection_ends (inl same) fuel =
      opening_same after_handshake after h client_token server_token client_nonce server_nonce
        nc_size ns_size (more 3 fuel) same
      ∙ hears_same after_handshake after h client_token server_token client_nonce server_nonce
          nc_size ns_size (more 1 fuel) false (ok tt) same
      ∙ wire_on _ _ relaying (
          rw
            (accepted_lem h server_token client_nonce server_nonce nc_size ns_size protocol direct
              starts dials)
            refl)
      ∙ wire_over _ _ refl
  data_connection_ends (inr differ) fuel =
      opening_wrong after_handshake after h client_token server_token client_nonce server_nonce
        nc_size ns_size (more 5 fuel) differ
      ∙ wire_on _ _
          (waiting after_handshake after h client_token server_token client_nonce server_nonce
            nc_size ns_size true (err authenticate) [])
          refl
      ∙ hears_close after_handshake after h client_token server_token client_nonce server_nonce
          nc_size ns_size (more 3 fuel) (err authenticate)
      ∙ wire_on _ _ refused refl
      ∙ wire_over _ _ refl
