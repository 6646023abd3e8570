-- ===== src/Client/Process/Refines.antt =====
-- internal/client/client.go: the loop of `Run` with the connections and the runner in it has the
-- waits of the loop that is given each connection's outcome.
use g_tun.Prelude.{
  ℕ, ◌*◌, min, ◌≡◌, refl, ◌∙◌, bytes_eq_iff, Bool, true, false, Option, none, some, List, [], ◌∷◌,
  arith,
}
use g_tun.Result.{Result}
use g_tun.Config.Client.{Client}
use g_tun.Control.{Json}
use g_tun.Auth.Mac.{Hmac}
use g_tun.Client.Loop.{Round, min_backoff, max_backoff, reset, run_loop, run_dynamic}
use g_tun.Client.Loop.Backoff.{expected, ends, run_dynamic_lem}
use g_tun.Client.Runner.{Runner, World, new_runner}
use g_tun.Client.Process.{Turn, attempt, run_turns, run_client}

abbrev pub has_returned : Option (Result (Unit {0})) → Bool
has_returned none = false
has_returned (some x) = true

module _ (h : Hmac) (json : Json) (cfg : Client) where
  -- Each turn with the outcome of its connection, for the runner that the turns before it leave.
  abbrev pub rounds : Runner → List Turn → List Round
  rounds r [] = []
  rounds r (t ∷ ts) =
      record {
        established = (attempt h json cfg t.world t.conn r).established;
        done = t.done;
        cancelled = t.cancelled;
      }
      ∷ rounds (attempt h json cfg t.world t.conn r).runner ts

  turns_waits :
      (b : ℕ) (r : Runner) (ts : List Turn)
      → (run_turns h json cfg b r ts).waits ≡ (run_loop b (rounds r ts)).waits
  unfolding run_turns run_loop
  turns_waits b r [] = refl
  turns_waits b r (t ∷ ts) =
      let a = attempt h json cfg t.world t.conn r in
      ground (arith, turns_waits (min (2 * reset a.established b) max_backoff) a.runner ts)

  turns_returned :
      (b : ℕ) (r : Runner) (ts : List Turn)
      → has_returned (run_turns h json cfg b r ts).result ≡ (run_loop b (rounds r ts)).returned
  unfolding run_turns run_loop
  turns_returned b r [] = refl
  turns_returned b r (t ∷ ts) =
      let a = attempt h json cfg t.world t.conn r in
      ground (arith, turns_returned (min (2 * reset a.established b) max_backoff) a.runner ts)

  -- `Run` without a fixed protocol waits 3 s * 2^k, a minute at most, between its connections, where
  -- k counts those since the last one whose settings came from a server that the client verified and
  -- could be applied; it returns exactly when the context is done.
  pub run_client-Refines :
      (w : World) (done : Bool) (turns : List Turn)
      → cfg.protocol ≡ []
      → ((run_client h json cfg w done turns).waits ≡ expected 0 (rounds new_runner turns))
        × (has_returned (run_client h json cfg w done turns).result
            ≡ ends (rounds new_runner turns))
  unfolding run_client run_dynamic
  run_client-Refines w done turns dynamic =
      let (waits, returned) = run_dynamic_lem (rounds new_runner turns) in
      rw ((bytes_eq_iff cfg.protocol []).1 dynamic) (
        turns_waits min_backoff new_runner turns ∙ waits,
        turns_returned min_backoff new_runner turns ∙ returned,
      )
