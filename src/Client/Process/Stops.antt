-- ===== src/Client/Process/Stops.antt =====
-- internal/client/client.go: `Run` leaves no transport behind.
use g_tun.Prelude.{
  ℕ, ◌≡◌, sym, subst, bytes_eq, Bool, true, false, not, Option, none, some, List, [], ◌∷◌, inl, inr,
  ltb, arith, if◌then◌else◌,
}
use g_tun.Result.{Result, ok, err}
use g_tun.Config.Client.{Client}
use g_tun.Control.{Json}
use g_tun.Auth.Mac.{Hmac}
use g_tun.Auth.Io.{Conn}
use g_tun.Client.Loop.{min_backoff}
use g_tun.Client.Runner.{Runner, World, new_runner, stop}
use g_tun.Client.Runner.Single.{Reach, start, next, applies, stops, stops_of, Reach-Single}
use g_tun.Client.Control.{run_static}
use g_tun.Client.Control.Trusted.{run_control_trusted}
use g_tun.Client.Process.{
  Turn, Ended, finish_static, attempt, run_turns, run_client, returns, sleep,
}

-- The runner is one that `Run` can have; once it has returned, no transport is the current one.
abbrev Settled : Ended → Type 0
Settled e = Reach e.runner × ((x : Result (Unit {0})) → e.result ≡ some x → e.runner.current ≡ none)

stop_idle : (r : Runner) → (stop r).current ≡ none
unfolding stop
stop_idle r = ground arith

returns-Settled :
    (waits : List ℕ) (x : Result (Unit {0})) (r : Runner) → Reach r → Settled (returns waits x r)
returns-Settled waits x r reached = (next reached stops, λ y e. stop_idle r)

sleep-Settled :
    (n : ℕ) (b : Bool) (r : Runner) (rest : Ended)
    → Reach r
    → Settled rest
    → Settled (sleep n b r rest)
sleep-Settled n true r rest reached s = returns-Settled (n ∷ []) (ok tt) r reached
sleep-Settled n false r rest reached s = s

if-Settled : (b : Bool) (x y : Ended) → Settled x → Settled y → Settled (if b then x else y)
if-Settled true x y sx sy = sx
if-Settled false x y sx sy = sy

finish-Settled :
    (done : Bool) (out : Result (Unit {0}) × Runner)
    → Reach out.1
    → Settled (finish_static done out)
unfolding finish_static
finish-Settled done (err e, r) reached = returns-Settled [] (err e) r reached
finish-Settled true (ok u, r) reached = returns-Settled [] (ok tt) r reached
finish-Settled false (ok u, r) reached = (reached, λ x e. cc)

module _ (h : Hmac) (json : Json) (cfg : Client) where
  attempt-Reach :
      (w : World) (c : Option Conn) (r : Runner) → Reach r → Reach (attempt h json cfg w c r).runner
  unfolding attempt
  attempt-Reach w none r reached = reached
  attempt-Reach w (some c) r reached = elim ((run_control_trusted w cfg h json r c).0) [
    | inl (announced, mid, fetched, e, _) ↦
        subst Reach (sym e) (next reached (applies w cfg announced))
    | inr (e, _) ↦ subst Reach (sym e) reached
  ]

  turns-Settled :
      (ts : List Turn) (backoff : ℕ) (r : Runner)
      → Reach r
      → Settled (run_turns h json cfg backoff r ts)
  unfolding run_turns
  turns-Settled [] backoff r reached = (reached, λ x e. cc)
  turns-Settled (t ∷ ts) backoff r reached =
      if-Settled t.done _ _ (returns-Settled [] (ok tt) _ after)
        (sleep-Settled _ t.cancelled _ _ after (turns-Settled ts _ _ after))
    where
      after : Reach (attempt h json cfg t.world t.conn r).runner
      after = attempt-Reach t.world t.conn r reached

  static-Settled :
      (w : World) (done : Bool) → Settled (finish_static done (run_static w cfg new_runner))
  unfolding run_static
  static-Settled w done = finish-Settled done _ (next start (applies w cfg _))

  run-Settled :
      (w : World) (done : Bool) (turns : List Turn) → Settled (run_client h json cfg w done turns)
  unfolding run_client
  run-Settled w done turns =
      if-Settled (not (bytes_eq cfg.protocol [])) _ _ (static-Settled w done)
        (turns-Settled turns min_backoff new_runner start)

  -- When `Run` returns, with or without a fixed protocol, for whatever reason and after whatever
  -- the servers and the files did, each transport that it ever started was cancelled and waited for,
  -- exactly once, and no other one was.
  pub run_client_stops :
      (w : World) (done : Bool) (turns : List Turn) (x : Result (Unit {0})) (n : ℕ)
      → (run_client h json cfg w done turns).result ≡ some x
      → stops_of n (run_client h json cfg w done turns).runner.stopped
        ≡ (if ltb n (run_client h json cfg w done turns).runner.started then 1 else 0)
  run_client_stops w done turns x n returned =
      let (reached, idle) = run-Settled w done turns in
      ground (arith, Reach-Single reached n, idle x returned)
