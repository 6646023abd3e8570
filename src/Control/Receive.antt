-- ===== src/Control/Receive.antt =====
-- internal/control/control.go: what `Receive` accepts.
use g_tun.Prelude.{
  ◌≤◌, ◌≡◌, ◌↔◌, refl, sym, ap, subst, ◌∙◌, Bytes, length, length-append, length-take, take, drop,
  take-append, drop-append, take-append-drop, Option, none, some, [], ◌∷◌, ◌++◌, arith,
}
use g_tun.Result.{ok}
use g_tun.Proto.{parse, supported}
use g_tun.Proto.Classes.{IsOneOf, parse_iff}
use g_tun.Auth.Mac.{Hmac, Channel, sign, verify_iff, length-sign}
use g_tun.Auth.Io.{Conn, run}
use g_tun.Auth.Io.Steps.{
  reads_inv, raise_if_inv, raise_unless_inv, or_raise_inv, lift_then_inv, return_inv, reads_full,
  raise_if_passed, raise_unless_passed, or_raise_done, lift_then_done, return_done,
}
use g_tun.Config.Kcp.{Kcp, IsUsable, validate_kcp_sound, validate_kcp_complete}
use g_tun.Control.{Settings, Json, label_config, uint16, validate_announced, receive}

-- Settings that a client can run: a supported protocol, and usable KCP parameters if there are any.
pub record IsRunnable (cfg : Settings) : Type 0 where
  pub known : IsOneOf cfg.protocol supported
  pub kcp : (k : Kcp) → cfg.kcp ≡ some k → IsUsable k

pub announced_sound :
    (o : Option Kcp) {u : Unit {0}}
    → validate_announced o ≡ ok u
    → (k : Kcp) → o ≡ some k
    → IsUsable k
announced_sound none h k e = cc
announced_sound (some l) h k e =
    let same : l ≡ k = cc in subst IsUsable same (validate_kcp_sound l h)

pub announced_complete :
    (o : Option Kcp) → ((k : Kcp) → o ≡ some k → IsUsable k) → validate_announced o ≡ ok tt
announced_complete none h = refl
announced_complete (some k) h = validate_kcp_complete k (h k refl)

module _ (h : Hmac) (json : Json) (token : Bytes) (channel : Channel) where
  -- An accepted message: a length of at most 4096, a body of that length, and the tag of the body
  -- for this session; and the connection that is left.
  pub record Accepted (c : Conn) (cfg : Settings) (c' : Conn) : Type 0 where
    pub header : Bytes
    pub body : Bytes
    pub rest : Bytes
    pub header_size : length header ≡ 2
    pub small : uint16 header ≤ 4096
    pub body_size : length body ≡ uint16 header
    pub received :
        c.input ≡ header ++ ((body ++ sign h token label_config (channel ∷ body ∷ [])) ++ rest)
    pub decoded : json.unmarshal body ≡ some cfg
    pub runnable : IsRunnable cfg
    pub final : c' ≡ record c { input = rest }

  receive_sound :
      (c c' : Conn) (cfg : Settings)
      → run (receive h json token channel) c ≡ (ok cfg, c')
      → Accepted c cfg c'
  unfolding receive
  receive_sound c c' cfg e = reads_inv c _ _ _ e λ header r1 got header_size e1.
      raise_if_inv _ _ _ _ e1 λ small e2. reads_inv _ _ _ _ e2 λ buf rest got' size e3.
        raise_unless_inv _ _ _ _ e3 λ valid e4. or_raise_inv _ _ _ _ e4 λ cfg' decoded e5.
          lift_then_inv _ (parse cfg'.protocol) _ e5 λ n known e6.
            lift_then_inv _ (validate_announced cfg'.kcp) _ e6 λ _ usable e7.
              return_inv _ _ e7 λ same final. record {
                header = header;
                body = take (uint16 header) buf;
                rest = rest;
                header_size = header_size;
                small = ground (arith, small);
                body_size = omega (arith, length-take (uint16 header) buf, size);
                received =
                    got
                    ∙ ap (◌++◌ header) (
                        got'
                        ∙ ap (λ (b : Bytes). b ++ rest)
                            (sym (take-append-drop (uint16 header) buf)
                              ∙ ap (◌++◌ (take (uint16 header) buf)) (
                                  (verify_iff h token label_config (drop (uint16 header) buf) _).0
                                    valid)));
                decoded = rw same decoded;
                runnable = rw same (record {
                  known = ((parse_iff cfg'.protocol n).0 known).1;
                  kcp = announced_sound cfg'.kcp usable;
                });
                final = final;
              }

  receive_complete :
      (c c' : Conn) (cfg : Settings)
      → Accepted c cfg c'
      → run (receive h json token channel) c ≡ (ok cfg, c')
  unfolding receive
  receive_complete c c' cfg a =
      reads_full _ c a.header _ _ _ a.received a.header_size
      ∙ raise_if_passed _ _ _ _ (ground (arith, a.small))
      ∙ reads_full _ _ (a.body ++ tag) a.rest _ _ refl (
          omega (
            arith,
            length-append a.body tag,
            a.body_size,
            length-sign h token label_config (channel ∷ a.body ∷ []),
          ))
      ∙ rw
          (
            take-append (uint16 a.header) a.body tag a.body_size,
            drop-append (uint16 a.header) a.body tag a.body_size,
          )
          (raise_unless_passed _ _ _ _ ((verify_iff h token label_config tag _).1 refl)
            ∙ or_raise_done _ _ _ cfg _ a.decoded
            ∙ lift_then_done _ _ cfg.protocol _
                ((parse_iff cfg.protocol cfg.protocol).1 (refl, a.runnable.known))
            ∙ lift_then_done _ _ tt _ (announced_complete cfg.kcp a.runnable.kcp)
            ∙ return_done _ _ _ _ refl a.final)
    where
      tag : Bytes
      tag = sign h token label_config (channel ∷ a.body ∷ [])

  -- `Receive` returns settings exactly if the peer sent a length of at most 4096, a body of that
  -- length that decodes to them, and the tag of that body for this session; if the protocol is
  -- supported and the KCP parameters, if any, are usable. It reads no byte after the tag.
  pub receive_iff :
      (c c' : Conn) (cfg : Settings)
      → (run (receive h json token channel) c ≡ (ok cfg, c')) ↔ Accepted c cfg c'
  receive_iff c c' cfg = (receive_sound c c' cfg, receive_complete c c' cfg)
