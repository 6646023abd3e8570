-- ===== src/Client/Control/Trusted.antt =====
-- internal/client/client.go: which settings reach the runner.
use g_tun.Prelude.{ℕ, suc, ◌≡◌, ◌⊎◌, inl, inr, refl, ◌∙◌, true, false}
use g_tun.Result.{Result, ok, err, is_ok}
use g_tun.Auth.Mac.{Hmac, Channel}
use g_tun.Auth.Io.{Conn, run}
use g_tun.Auth.Io.Sequence.{run-bind, then_inv, then_done}
use g_tun.Auth.Io.Steps.{sets_deadline_inv, sets_deadline_done, return_inv, return_done}
use g_tun.Auth.Handshake.{client_handshake}
use g_tun.Auth.Handshake.Client.{Proved, client_handshake_iff}
use g_tun.Config.Client.{Client}
use g_tun.Control.{Settings, Json, receive}
use g_tun.Control.Receive.{Accepted, receive_iff}
use g_tun.Client.Runner.{Runner, World, apply}
use g_tun.Client.Control.{Attempt, fetch, after_apply, after_fetch, run_control}

module _ (h : Hmac) (json : Json) (cfg : Client) where
  -- The server proved under the deadline that it knows the token, and then sent the settings, with
  -- the tag for this session; the deadline was cleared.
  pub record Fetched (c : Conn) (announced : Settings) (c' : Conn) : Type 0 where
    pub start : ℕ
    pub left : ℕ
    pub channel : Channel
    pub proved : Conn
    pub told : Conn
    pub budget : c.budget ≡ suc start
    pub handshake : Proved h cfg.token (record c { budget = start; armed = true }) channel proved
    pub received : Accepted h json cfg.token channel proved announced told
    pub budget_left : told.budget ≡ suc left
    pub final : c' ≡ record told { armed = false; budget = left }

  fetch_sound :
      (c c' : Conn) (announced : Settings)
      → run (fetch h json cfg) c ≡ (ok announced, c')
      → Fetched c announced c'
  unfolding fetch
  fetch_sound c c' announced e = sets_deadline_inv c _ _ _ e λ start budget e1.
      then_inv (client_handshake h cfg.token) _ _ e1 λ channel proved e2 e3.
        then_inv (receive h json cfg.token channel) _ _ e3 λ settings told e4 e5.
          sets_deadline_inv told _ _ _ e5 λ left more e6. return_inv _ _ e6 λ same final. record {
            start = start;
            left = left;
            channel = channel;
            proved = proved;
            told = told;
            budget = budget;
            handshake = (client_handshake_iff h cfg.token _ proved channel).0 e2;
            received = rw same ((receive_iff h json cfg.token channel proved told settings).0 e4);
            budget_left = more;
            final = final;
          }

  pub fetch_complete :
      (c c' : Conn) (announced : Settings)
      → Fetched c announced c'
      → run (fetch h json cfg) c ≡ (ok announced, c')
  unfolding fetch
  fetch_complete c c' announced f =
      sets_deadline_done _ c true f.start _ f.budget
      ∙ then_done (client_handshake h cfg.token) _ _ f.channel f.proved
          ((client_handshake_iff h cfg.token _ f.proved f.channel).1 f.handshake)
      ∙ then_done (receive h json cfg.token f.channel) _ f.proved announced f.told
          ((receive_iff h json cfg.token f.channel f.proved f.told announced).1 f.received)
      ∙ sets_deadline_done _ f.told false f.left _ f.budget_left
      ∙ return_done _ _ _ _ refl f.final

-- The connection reported a failure and left the runner as it was.
abbrev pub Untouched : Runner → Attempt → Type 0
Untouched r a = (a.runner ≡ r) × (a.established ≡ false)

-- What `runControl` makes of the answer of `apply`.
pub applied_ends :
    (out : Result (Unit {0}) × Runner) (c : Conn)
    → ((run (after_apply out) c).0.runner ≡ out.1)
      × ((run (after_apply out) c).0.established ≡ is_ok out.0)
      × ((run (after_apply out) c).1.closed ≡ true)
      × ((run (after_apply out) c).1.output ≡ c.output)
unfolding after_apply run
applied_ends (ok u, r) c = (refl, refl, refl, refl)
applied_ends (err e, r) c = (refl, refl, refl, refl)

module _ (w : World) (cfg : Client) (h : Hmac) (json : Json) where
  -- The settings were applied, and the connection was established exactly if that worked.
  abbrev pub Applied : Runner → Conn → Attempt → Type 0
  Applied r c a =
      (announced : Settings) × (mid : Conn) × Fetched h json cfg c announced mid
      × (a.runner ≡ (apply w cfg announced r).1)
      × (a.established ≡ is_ok (apply w cfg announced r).0)

  -- `runControl` hands settings to the runner only if the server proved on this connection that it
  -- knows the token, and signed these settings for this session; it reports the connection as
  -- established exactly if they could then be applied. After any other exchange the transport that
  -- runs goes on untouched. In every case the connection is closed in the end.
  pub run_control_trusted :
      (r : Runner) (c : Conn)
      → (Applied r c (run (run_control w cfg h json r) c).0
          ⊎ Untouched r (run (run_control w cfg h json r) c).0)
        × ((run (run_control w cfg h json r) c).1.closed ≡ true)
  unfolding run_control after_fetch run
  run_control_trusted r c =
      rw (run-bind (fetch h json cfg) (after_fetch w cfg r) c)
        (go (run (fetch h json cfg) c).0 (run (fetch h json cfg) c).1 refl)
    where
      Ends : Result Settings → Conn → Type 0
      Ends x mid =
          (Applied r c (run (after_fetch w cfg r x) mid).0
            ⊎ Untouched r (run (after_fetch w cfg r x) mid).0)
          × ((run (after_fetch w cfg r x) mid).1.closed ≡ true)

      go : (x : Result Settings) (mid : Conn) → run (fetch h json cfg) c ≡ (x, mid) → Ends x mid
      go (err e) mid _ = (inr (refl, refl), refl)
      go (ok announced) mid e =
          let (runner, established, closed, _) = applied_ends (apply w cfg announced r) mid in
          (
            inl (announced, mid, fetch_sound h json cfg c mid announced e, runner, established),
            closed,
          )
