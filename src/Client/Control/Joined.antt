-- ===== src/Client/Control/Joined.antt =====
-- internal/client/client.go and internal/server/server.go: the exchange of `runControl` and that of
-- `handleControl`, call by call over one connection.
use g_tun.Prelude.{
  ℕ, ◌+◌, ◌≤◌, ◌≡◌, refl, sym, ◌∙◌, Bytes, length, none, some, false, [], ◌∷◌, ◌++◌, append-nil,
  arith, take-append, drop-append, length-append, ltb,
}
use g_tun.Result.{Result, set_deadline}
use g_tun.Proto.{parse}
use g_tun.Proto.Classes.{parse_iff}
use g_tun.Auth.Mac.{Hmac, sign, verify_iff, length-sign, transcript}
use g_tun.Auth.Io.{Io, return, ◌>>=◌, ◌>>◌, sets_deadline}
use g_tun.Auth.Io.Duplex.{
  End, more, duplex, move_of, duplex_left, duplex_right, duplex_ended, move-return,
}
use g_tun.Auth.Io.Duplex.Nested.{
  then-reads, then-reads_waits, then-writes, move-deadline, move-deadline_last, then-raise_unless,
  then-raise_if, then-or_raise, then-lift, then-return, then-seq,
}
use g_tun.Auth.Handshake.Opening.{opening, accepting}
use g_tun.Config.Client.{Client}
use g_tun.Control.{
  Settings, Json, put_uint16, uint16, frame, label_config, send, receive, validate_announced,
}
use g_tun.Control.Receive.{IsRunnable, announced_complete}
use g_tun.Client.Control.{fetch}
use g_tun.Config.Server
use g_tun.Server.{announce, greet}
use g_tun.Server.Start.{announce-IsRunnable}

module _ (h : Hmac) (json : Json) (cfg : Client) (announced : Settings)
    (client_nonce server_nonce : Bytes) where
  abbrev pub fetch_end : End (Result Settings)
  fetch_end = record { program = fetch h json cfg; input = []; entropy = client_nonce }

  abbrev pub greet_end : End (Result (Unit {0}))
  greet_end = record {
    program = greet h json cfg.token announced;
    input = [];
    entropy = server_nonce;
  }

  abbrev channel : Bytes
  channel = transcript client_nonce server_nonce

  -- What is left to do behind the handshake.
  abbrev fetch_rest : Bytes → Io (Result Settings)
  fetch_rest ch = receive h json cfg.token ch >>= λ s. sets_deadline false set_deadline >> return s

  abbrev greet_rest : Bytes → Io (Result (Unit {0}))
  greet_rest ch = send h json cfg.token ch announced >> sets_deadline false set_deadline

  -- The client then waits for the settings.
  fetch_waits : move_of (record { program = fetch_rest channel; input = []; entropy = [] }) ≡ none
  unfolding receive
  fetch_waits = then-reads_waits _ _ _ _ 2 _ (omega arith)

  module _ (body : Bytes) (encoded : json.marshal announced ≡ some body)
      (decoded : json.unmarshal body ≡ some announced) (small : length body ≤ 4096)
      (runnable : IsRunnable announced) where
    abbrev header : Bytes
    header = put_uint16 (length body)

    header_lem : uint16 header ≡ length body
    header_lem = omega arith

    -- The settings, and the end of the deadlines.
    telling :
        (fuel : ℕ)
        → duplex
            (more 5 fuel)
            (record { program = fetch_rest channel; input = []; entropy = [] })
            (record { program = greet_rest channel; input = []; entropy = [] })
          ≡ (
            record { program = return announced; input = []; entropy = [] },
            record { program = return tt; input = []; entropy = [] },
          )
    unfolding send receive frame
    telling fuel =
        rw
          (
            then-seq (send h json cfg.token channel announced) (sets_deadline false set_deadline),
            then-or_raise _ (λ _. sets_deadline false set_deadline) _ _ body encoded,
            then-raise_if _ (λ _. sets_deadline false set_deadline) _ _ fits,
          )
          (duplex_right _ _ _ _ _ (then-reads_waits _ _ _ _ 2 _ (omega arith))
              (then-writes _ _ _ _ (header ++ (body ++ tag)) _)
            ∙ duplex_left _ _ _ _ _ (then-reads _ _ _ _ 2 _ header (body ++ tag) refl refl)
            ∙ rw (then-raise_if _ keep _ _ header_fits, header_lem)
                (duplex_left _ _ _ _ _ (
                    then-reads _ _ _ _ (length body + 32) _ (body ++ tag) [] (sym (append-nil _)) (
                      omega (
                        arith,
                        length-append body tag,
                        length-sign h cfg.token label_config (channel ∷ body ∷ []),
                      )))
                  ∙ rw
                      (
                        take-append (length body) body tag refl,
                        drop-append (length body) body tag refl,
                      )
                      (rw
                        (
                          then-raise_unless _ keep _ _ (
                              (verify_iff h cfg.token label_config tag (channel ∷ body ∷ [])).1
                                refl),
                          then-or_raise _ keep _ _ announced decoded,
                          then-lift keep (parse announced.protocol) _ announced.protocol (
                              (parse_iff announced.protocol announced.protocol).1
                                (refl, runnable.known)),
                          then-lift keep (validate_announced announced.kcp) _ tt
                              (announced_complete announced.kcp runnable.kcp),
                          then-return keep announced,
                          then-return (λ (u : Unit {0}). sets_deadline false set_deadline) tt,
                        )
                        (duplex_left _ _ _ _ _ (move-deadline _ _ _ false _)
                          ∙ duplex_right _ _ _ _ _ (move-return _ _ _)
                              (move-deadline_last _ _ _ false)
                          ∙ duplex_ended _ _ _ (move-return _ _ _) (move-return _ _ _)))))
      where
        fits : ltb 4096 (length body) ≡ false
        fits = ground (arith, small)

        header_fits : ltb 4096 (uint16 header) ≡ false
        header_fits = rw header_lem fits

        keep : Settings → Io (Result Settings)
        keep s = sets_deadline false set_deadline >> return s

        tag : Bytes
        tag = sign h cfg.token label_config (channel ∷ body ∷ [])

-- With one token on both sides, a client and a server with a valid configuration finish the whole
-- exchange over one connection, call by call and with neither waiting for ever, whatever the nonces
-- are: the server's part returns without an error, the client's returns exactly the settings that
-- the server announces, and no byte is left over. The encoded settings have at most 4096 bytes and
-- are decoded back.
pub exchange_completes :
    (h : Hmac) (json : Json) (cfg : Client) (scfg : Server.Server)
    (client_nonce server_nonce body : Bytes) (fuel : ℕ)
    → Server.IsValid scfg
    → length client_nonce ≡ 32
    → length server_nonce ≡ 32
    → json.marshal (announce scfg) ≡ some body
    → json.unmarshal body ≡ some (announce scfg)
    → length body ≤ 4096
    → duplex
        (more 15 fuel)
        (fetch_end h json cfg (announce scfg) client_nonce server_nonce)
        (greet_end h json cfg (announce scfg) client_nonce server_nonce)
      ≡ (
        record { program = return (announce scfg); input = []; entropy = [] },
        record { program = return tt; input = []; entropy = [] },
      )
unfolding fetch greet
exchange_completes h json cfg scfg nc ns body fuel valid nc_size ns_size encoded decoded small =
    opening h cfg.token nc ns set_deadline (fetch_rest h json cfg (announce scfg) nc ns)
      (greet_rest h json cfg (announce scfg) nc ns) (more 6 fuel) nc_size ns_size
    ∙ accepting h cfg.token nc ns set_deadline (fetch_rest h json cfg (announce scfg) nc ns)
        (greet_rest h json cfg (announce scfg) nc ns) (more 5 fuel) _ _ refl
        (fetch_waits h json cfg (announce scfg) nc ns)
    ∙ telling h json cfg (announce scfg) nc ns body encoded decoded small
        (announce-IsRunnable scfg valid) fuel
