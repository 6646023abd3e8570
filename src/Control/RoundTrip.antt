-- ===== src/Control/RoundTrip.antt =====
-- internal/control/control.go: what `Send` writes, and that `Receive` reads it back.
use g_tun.Prelude.{
  ℕ, suc, ◌≤◌, ◌<◌, ◌≡◌, refl, ◌∙◌, Bytes, length, some, [], ◌++◌, arith, ◌⊎◌, inl, inr, dec_le, ap,
  sym, ◌↔◌,
}
use g_tun.Result.{ok, err, config_too_large}
use g_tun.Auth.Mac.{Hmac, Channel}
use g_tun.Auth.Io.{Conn, run}
use g_tun.Auth.Io.Steps.{
  or_raise_inv, raise_if_inv, writes_inv, return_inv, or_raise_done, raise_if_passed,
  raise_if_failed, writes_done, return_done,
}
use g_tun.Control.{Settings, Json, put_uint16, frame, send, receive}
use g_tun.Control.Receive.{IsRunnable, receive_iff}

module _ (h : Hmac) (json : Json) (token : Bytes) (channel : Channel) where
  send_small :
      (cfg : Settings) (body : Bytes) (c : Conn) (n : ℕ)
      → json.marshal cfg ≡ some body
      → c.budget ≡ suc n
      → length body ≤ 4096
      → run (send h json token channel cfg) c
        ≡ (ok tt, record c { output = c.output ++ frame h json token channel body; budget = n })
  unfolding send
  send_small cfg body c n encoded budget small =
      or_raise_done c _ _ body _ encoded
      ∙ raise_if_passed _ c _ _ (ground arith)
      ∙ writes_done _ c _ n _ budget
      ∙ return_done _ _ _ _ refl refl

  send_large :
      (cfg : Settings) (body : Bytes) (c : Conn)
      → json.marshal cfg ≡ some body
      → 4096 < length body
      → run (send h json token channel cfg) c ≡ (err config_too_large, c)
  unfolding send
  send_large cfg body c encoded large =
      or_raise_done c _ _ body _ encoded ∙ raise_if_failed _ c _ _ (ground arith)

  -- A message that was sent: its body, and the connection after the write.
  pub record Sent (cfg : Settings) (c c' : Conn) : Type 0 where
    pub body : Bytes
    pub left : ℕ
    pub encoded : json.marshal cfg ≡ some body
    pub small : length body ≤ 4096
    pub budget : c.budget ≡ suc left
    pub final :
        c' ≡ record c { output = c.output ++ frame h json token channel body; budget = left }

  pub send_iff :
      (cfg : Settings) (c c' : Conn)
      → (run (send h json token channel cfg) c ≡ (ok tt, c')) ↔ Sent cfg c c'
  unfolding send
  send_iff cfg c c' = (
    λ e. or_raise_inv c _ _ _ e λ body encoded e1. raise_if_inv c _ _ _ e1 λ small e2.
        writes_inv c _ _ _ e2 λ left budget e3. return_inv _ _ e3 λ _ final. record {
          body = body;
          left = left;
          encoded = encoded;
          small = ground (arith, small);
          budget = budget;
          final = final;
        },
    λ s.
        send_small cfg s.body c s.left s.encoded s.budget s.small
        ∙ ap (λ (d : Conn). (ok tt, d)) (sym s.final),
  )

  -- On a connection that still takes a write, a message whose body has at most 4096 bytes is sent
  -- as one frame; a longer one is refused, and nothing is written.
  send_writes :
      (cfg : Settings) (body : Bytes) (c : Conn) (n : ℕ)
      → json.marshal cfg ≡ some body
      → c.budget ≡ suc n
      → ((length body ≤ 4096)
          × (run (send h json token channel cfg) c ≡ (
            ok tt,
            record c { output = c.output ++ frame h json token channel body; budget = n },
          )))
        ⊎ ((4096 < length body)
            × (run (send h json token channel cfg) c ≡ (err config_too_large, c)))
  send_writes cfg body c n encoded budget = elim (dec_le (length body) 4096) [
    | yes small ↦ inl (small, send_small cfg body c n encoded budget small)
    | no large ↦
        let more : 4096 < length body = omega (arith, large) in
        inr (more, send_large cfg body c encoded more)
  ]

  -- The settings that one side sends reach the other side whole, whatever bytes follow the frame:
  -- with the same token and session `Receive` returns them and leaves what follows. The settings
  -- have to be runnable, their body at most 4096 bytes long, and the decoder has to invert the
  -- encoder on them.
  pub receive-send :
      (cfg : Settings) (body rest : Bytes) (s c : Conn) (n : ℕ)
      → json.marshal cfg ≡ some body
      → json.unmarshal body ≡ some cfg
      → length body ≤ 4096
      → IsRunnable cfg
      → s.budget ≡ suc n
      → s.output ≡ []
      → c.input ≡ (run (send h json token channel cfg) s).1.output ++ rest
      → run (receive h json token channel) c ≡ (ok cfg, record c { input = rest })
  unfolding frame
  receive-send cfg body rest s c n encoded decoded small runnable budget fresh arrived =
      (receive_iff h json token channel c _ cfg).1 (record {
        header = put_uint16 (length body);
        body = body;
        rest = rest;
        header_size = refl;
        small = omega arith;
        body_size = omega arith;
        received = arrived ∙ rw (send_small cfg body s n encoded budget small, fresh);
        decoded = decoded;
        runnable = runnable;
        final = refl;
      })
