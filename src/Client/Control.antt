-- ===== src/Client/Control.antt =====
-- internal/client/client.go: one control connection, `runControl`, and the start of `runStatic`.
pub mod Trusted
pub mod Agreement
pub mod Static
pub mod Joined
pub mod Matches
use g_tun.Prelude.{Bool, true, false, none}
use g_tun.Result.{Result, ok, err}
use g_tun.Result
use g_tun.Config.Client
use g_tun.Control.{Settings, Json, receive}
use g_tun.Auth.Mac.{Hmac}
use g_tun.Auth.Io.{Io, pure, bind, close, drain, ◌>>=◌, ◌>>◌, return, sets_deadline}
use g_tun.Auth.Handshake.{client_handshake}
use g_tun.Client.Runner.{Runner, World, apply}

-- What `runControl` reports, `established`, and the runner that it leaves.
pub record Attempt : Type 0 where
  pub established : Bool
  pub runner : Runner

pub after_apply : Result (Unit {0}) × Runner → Io Attempt
after_apply (err e, r) = close (pure (record { established = false; runner = r }))
after_apply (ok u, r) = drain (close (pure (record { established = true; runner = r })))

-- The exchange of `runControl`: the handshake and the settings, under one deadline.
unfoldable pub fetch : Hmac → Json → Client.Client → Io (Result Settings)
fetch h json cfg = do
  sets_deadline true Result.set_deadline
  channel ← client_handshake h cfg.token
  announced ← receive h json cfg.token channel
  sets_deadline false Result.set_deadline
  return announced

module _ (w : World) (cfg : Client.Client) where
  after_fetch : Runner → Result Settings → Io Attempt
  unfolding after_apply
  after_fetch r (err e) = close (pure (record { established = false; runner = r }))
  after_fetch r (ok announced) = after_apply (apply w cfg announced r)

  -- `r.apply` at the configured protocol; `runStatic` then waits for the end of the context.
  unfoldable pub run_static : Runner → Result (Unit {0}) × Runner
  run_static r =
      apply w cfg (record { protocol = cfg.protocol; port = cfg.data_port; kcp = none }) r

  -- `runControl` on a connection that was dialed.
  unfoldable pub run_control : Hmac → Json → Runner → Io Attempt
  unfolding after_fetch
  run_control h json r = bind (fetch h json cfg) (after_fetch r)
