-- ===== src/Transport/Conn/Joined.antt =====
-- internal/transport: the two ends of a data connection, call by call: the client's `clientHandshake`
-- and the server's `handleConn`.
use g_tun.Prelude.{
  ℕ, zero, suc, ◌≡◌, refl, ap, ◌∙◌, Bytes, length, Bool, false, not, List, [], ◌∷◌, map, Bool-cases,
  if◌then◌else◌, inl, inr, append-nil,
}
use g_tun.Result.{Result, ok, set_deadline}
use g_tun.Proto.{Name, mux}
use g_tun.Auth.Mac.{Hmac}
use g_tun.Auth.Io.{Io, pure, close, return, sets_deadline, ◌>>◌}
use g_tun.Auth.Io.Duplex.{
  End, duplex, more, move-return, move-pure, move-close, duplex_left, duplex_right, duplex_ended,
}
use g_tun.Auth.Io.Duplex.Nested.{move-deadline}
use g_tun.Auth.Io.Duplex.After.{duplex_on}
use g_tun.Auth.Handshake.Opening.{opening, accepting}
use g_tun.Transport.Conn.{
  Served, no_session, served, handle_stream, handshake, client_handshake_on, server_handshake_on,
  after_auth, handle_conn,
}

abbrev pub end_with : {A : Type 0} → Io A → Bytes → End A
end_with p entropy = record { program = p; input = []; entropy = entropy }

-- What `handleConn` does for a client that knows the token.
abbrev pub accepted : Name → Bool → Bool → List Bool → Served
accepted protocol direct starts dials =
    if not (mux protocol)
    then served (handle_stream direct ∷ [])
    else if starts
    then served (map handle_stream dials)
    else no_session

more-suc : (n fuel : ℕ) → more n (suc fuel) ≡ suc (more n fuel)
more-suc zero fuel = refl
more-suc (suc n) fuel = ap suc (more-suc n fuel)

closes :
    (x : Served) (spare fuel : ℕ)
    → duplex (more spare (suc fuel)) (end_with (return tt) []) (end_with (close (pure x)) [])
      ≡ (end_with (return tt) [], end_with (pure x) [])
closes x spare fuel = rw (more-suc spare fuel) (
    duplex_right (more spare fuel) _ _ _ _ (move-return _ _ _) (move-close (pure x) _ _)
    ∙ duplex_ended _ _ _ (move-return _ _ _) (move-pure _ _ _))

module _ (h : Hmac) (token client_nonce server_nonce : Bytes) (nc_size : length client_nonce ≡ 32)
    (ns_size : length server_nonce ≡ 32) where
  pub accepted_lem :
      (protocol : Name) (direct starts : Bool) (dials : List Bool)
      → after_auth h token (mux protocol) direct starts dials (ok tt)
        ≡ close (pure (accepted protocol direct starts dials))
  unfolding after_auth
  accepted_lem protocol direct starts dials = elim (Bool-cases (mux protocol)) [
    | inl e ↦ rw e (elim (Bool-cases starts) [ inl e' ↦ rw e' refl | inr e' ↦ rw e' refl ])
    | inr e ↦ rw e refl
  ]

  abbrev clear : Bytes → Io (Result (Unit {0}))
  clear channel = sets_deadline false set_deadline >> return tt

  both_handshakes :
      (fuel : ℕ)
      → duplex
          (more 12 fuel)
          (end_with (client_handshake_on h token) client_nonce)
          (end_with (server_handshake_on h token) server_nonce)
        ≡ (end_with (return tt) [], end_with (return tt) [])
  unfolding client_handshake_on server_handshake_on handshake ◌>>◌
  both_handshakes fuel =
      opening h token client_nonce server_nonce set_deadline clear clear (more 3 fuel) nc_size
        ns_size
      ∙ duplex_left _ _ _ _ _ (move-deadline _ _ _ false _)
      ∙ accepting h token client_nonce server_nonce set_deadline clear clear (more 1 fuel) _ _
          (append-nil _) (move-return _ _ _)
      ∙ duplex_right _ _ _ _ _ (move-return _ _ _) (move-deadline _ _ _ false _)
      ∙ duplex_ended _ _ _ (move-return _ _ _) (move-return _ _ _)

  -- With one token on both sides, a data connection is accepted, call by call and with neither side
  -- waiting for ever, whatever the nonces are: the client's handshake returns without an error, and
  -- the server relays the stream, or the streams of the smux session that it starts, and ends with
  -- the connection closed. No byte is left over, so the first byte that the application sends is the
  -- first that is relayed.
  data_connection_accepted :
      (protocol : Name) (direct starts : Bool) (dials : List Bool) (fuel : ℕ)
      → duplex
          (more 13 fuel)
          (end_with (client_handshake_on h token) client_nonce)
          (end_with (handle_conn h token protocol direct starts dials) server_nonce)
        ≡ (end_with (return tt) [], end_with (pure (accepted protocol direct starts dials)) [])
  unfolding handle_conn
  data_connection_accepted protocol direct starts dials fuel =
      let (spare, on) =
        duplex_on (after_auth h token (mux protocol) direct starts dials) (end_with (return tt) [])
          (ok tt) [] [] 12 (end_with (client_handshake_on h token) client_nonce)
          (end_with (server_handshake_on h token) server_nonce) (both_handshakes 0) in
      on (suc fuel) ∙ rw (accepted_lem protocol direct starts dials) (closes _ spare fuel)
