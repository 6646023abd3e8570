-- ===== src/Server/Greet.antt =====
-- internal/server/server.go: to whom `handleControl` announces the settings.
use g_tun.Prelude.{ℕ, suc, ℕ-cases, inl, inr, ◌≡◌, ◌↔◌, refl, sym, ap, ◌∙◌, Bytes, true, false, []}
use g_tun.Result.{Result, ok, err, set_deadline}
use g_tun.Auth.Mac.{Hmac, Channel}
use g_tun.Auth.Io.{Conn, run, sets_deadline}
use g_tun.Auth.Io.Sequence.{run-bind, then_inv, then_done, next_inv, next_done}
use g_tun.Auth.Io.Steps.{sets_deadline_inv, sets_deadline_done}
use g_tun.Auth.Handshake.{server_handshake}
use g_tun.Auth.Handshake.Server.{Proved, server_handshake_iff}
use g_tun.Control.{Settings, Json, send}
use g_tun.Control.RoundTrip.{Sent, send_iff}
use g_tun.Server.{Greeted, connected, greet, after_greeting, handle_control}

-- The last call of `greet`.
clear_done :
    (c : Conn) (n : ℕ)
    → c.budget ≡ suc n
    → run (sets_deadline false set_deadline) c ≡ (ok tt, record c { armed = false; budget = n })
unfolding run sets_deadline
clear_done c n more = rw (more, run)

clear_inv :
    (c c' : Conn)
    → run (sets_deadline false set_deadline) c ≡ (ok tt, c')
    → (n : ℕ) × (c.budget ≡ suc n) × (c' ≡ record c { armed = false; budget = n })
unfolding run sets_deadline
clear_inv c c' h = elim (ℕ-cases c.budget) [
  | inl none_left ↦ cc (rw (none_left, run) at h)
  | inr (n, more) ↦
      let eq : (ok tt, record c { armed = false; budget = n }) ≡ (ok tt, c') =
        rw (more, run) at h in
      (n, more, sym (ap (λ (r : Result (Unit {0}) × Conn). r.1) eq))
]

module _ (h : Hmac) (json : Json) (token : Bytes) (announced : Settings) where
  -- A client that was greeted: it proved under the deadline that it knows the token, the settings
  -- went out for that session, and the deadline was cleared.
  pub record Welcomed (c c' : Conn) : Type 0 where
    pub start : ℕ
    pub left : ℕ
    pub channel : Channel
    pub proved : Conn
    pub told : Conn
    pub budget : c.budget ≡ suc start
    pub handshake : Proved h token (record c { budget = start; armed = true }) channel proved
    pub sent : Sent h json token channel announced proved told
    pub budget_left : told.budget ≡ suc left
    pub final : c' ≡ record told { armed = false; budget = left }

  greet_sound : (c c' : Conn) → run (greet h json token announced) c ≡ (ok tt, c') → Welcomed c c'
  unfolding greet
  greet_sound c c' e = sets_deadline_inv c _ _ _ e λ start budget e1.
      then_inv (server_handshake h token) _ _ e1 λ channel proved e2 e3.
        next_inv (send h json token channel announced) _ _ e3 λ _ told e4 e5.
          let (left, more, final) = clear_inv told c' e5 in
          record {
            start = start;
            left = left;
            channel = channel;
            proved = proved;
            told = told;
            budget = budget;
            handshake = (server_handshake_iff h token _ proved channel).0 e2;
            sent = (send_iff h json token channel announced proved told).0 e4;
            budget_left = more;
            final = final;
          }

  greet_complete :
      (c c' : Conn) → Welcomed c c' → run (greet h json token announced) c ≡ (ok tt, c')
  unfolding greet
  greet_complete c c' w =
      sets_deadline_done _ c true w.start _ w.budget
      ∙ then_done (server_handshake h token) _ _ w.channel w.proved
          ((server_handshake_iff h token _ w.proved w.channel).1 w.handshake)
      ∙ next_done (send h json token w.channel announced) _ w.proved tt w.told
          ((send_iff h json token w.channel announced w.proved w.told).1 w.sent)
      ∙ clear_done w.told w.left w.budget_left
      ∙ ap (λ (d : Conn). (ok tt, d)) (sym w.final)

  -- `handleControl` holds the connection of a client exactly if the client was greeted: it proved
  -- under the deadline that it knows the token, and the settings were sent whole in its session.
  -- What the client sends afterwards is read and dropped, and in the end the connection is closed.
  pub handle_control_iff :
      (c c' : Conn)
      → (run (handle_control h json token announced) c ≡ (connected, c'))
        ↔ ((mid : Conn) × Welcomed c mid × (c' ≡ record mid { input = []; closed = true }))
  unfolding handle_control after_greeting run
  handle_control_iff c c' = (
    λ e.
        go (run (greet h json token announced) c).0 (run (greet h json token announced) c).1 refl
          (sym (run-bind (greet h json token announced) after_greeting c) ∙ e),
    λ (mid, w, final).
        run-bind (greet h json token announced) after_greeting c
        ∙ rw (greet_complete c mid w) (ap (λ (d : Conn). (connected, d)) (sym final)),
  )
    where
      go :
          (r : Result (Unit {0})) (mid : Conn)
          → run (greet h json token announced) c ≡ (r, mid)
          → run (after_greeting r) mid ≡ (connected, c')
          → (mid : Conn) × Welcomed c mid × (c' ≡ record mid { input = []; closed = true })
      go (ok u) mid e e' = (mid, greet_sound c mid e, sym (ap (λ (r : Greeted × Conn). r.1) e'))
      go (err x) mid e e' = cc
