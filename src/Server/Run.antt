-- ===== src/Server/Run.antt =====
-- internal/server/server.go: `Run` behind the start of its listeners, with the goroutines that run
-- them. A listener's goroutine sends what the listener returned on the channel `errs`.
pub mod Joins
pub mod Ends
pub mod Reasons
use g_tun.Prelude.{
  if◌then◌else◌, ℕ, suc, Bytes, Bool, true, false, Option, none, some, List, [], ◌∷◌, ◌++◌, ◌≡◌,
  ◌<◌, length,
}
use g_tun.Result.{Result, Error, listen_control}
use g_tun.Auth.Mac.{Hmac}
use g_tun.Transport.Kcp.{Ciphers}
use g_tun.Netutil.Accept.{Event}
use g_tun.Transport.Serve.{Serving, Site, accept_all, refuses, serving}
use g_tun.Server.{Service}

pub data Listener : Type 0 where
  data_listener control_listener : Listener

control_of : {A : Type 0} → Option A → List Listener
control_of none = []
control_of (some c) = control_listener ∷ []

-- The goroutines that `Run` starts.
unfoldable pub listeners : Service → List Listener
unfolding control_of
listeners s = data_listener ∷ control_of s.control

-- `serveControl`: each connection of its accept loop is handed to `handleControl`.
serve_control : Bool → List Event → Serving
unfolding accept_all
serve_control listens events = if listens then accept_all events else refuses listen_control

-- What the listeners meet while they run: those of the data listener, whether the control port can be
-- opened, and what its accept loop meets.
pub record Surroundings : Type 0 where
  pub site : Site
  pub control_listens : Bool
  pub control_events : List Event

-- What a listener's goroutine sends on `errs`: `none` while the listener serves.
unfoldable pub listener_result :
    Hmac → Ciphers → Service → Surroundings → Listener → Option (Result (Unit {0}))
unfolding serve_control
listener_result h lib s w data_listener =
    (serving h lib s.transport.opts.token s.transport.opts.kcp s.transport.opts.protocol
      w.site).result
listener_result h lib s w control_listener =
    (serve_control w.control_listens w.control_events).result

abbrev pub errs_capacity : ℕ
errs_capacity = 2

-- What a listener returned: `none` is nil.
pub record Report : Type 0 where
  pub from : Listener
  pub error : Option Error

-- Before the first receive; behind `cancel` with the errors joined so far and the number of
-- receives that are left; and behind the return.
pub data Stage : Type 0 where
  waiting : Stage
  joining : ℕ → List Error → Stage
  returned : List Error → Stage

-- `errors.Join`: nil is no error, and no errors are nil.
abbrev pub join : List Error → Option Error → List Error
join es none = es
join es (some e) = es ++ (e ∷ [])

pub record Process : Type 0 where
  pub running : List Listener
  pub errs : List Report
  pub stage : Stage
  pub cancelled : Bool
  -- Every report so far, in the order of the sends.
  pub sent : List Report

abbrev pub push_report : Report → Process → Process
push_report r p = record p { errs = p.errs ++ (r ∷ []); sent = p.sent ++ (r ∷ []) }

abbrev pub take_report : Stage → List Report → Process → Process
take_report stage rest p = record p { errs = rest; stage = stage; cancelled = true }

-- `xs` without one of its listeners.
pub data Without (l : Listener) : List Listener → List Listener → Type 0 where
  here : (ls : List Listener) → Without l (l ∷ ls) ls
  there :
      (k : Listener) (ls rest : List Listener) → Without l ls rest → Without l (k ∷ ls) (k ∷ rest)

-- `total` is the value of `listeners` in the source.
pub data Step (total : ℕ) (p : Process) : Process → Type 0 where
  -- A listener returns, for whatever reason, and its send finds room.
  ends :
      (l : Listener) (error : Option Error) (rest : List Listener)
      → Without l p.running rest
      → length p.errs < errs_capacity
      → Step total p
          (push_report (record { from = l; error = error }) (record p { running = rest }))
  first :
      (r : Report) (rest : List Report) (n : ℕ)
      → p.stage ≡ waiting
      → p.errs ≡ r ∷ rest
      → total ≡ suc n
      → Step total p (take_report (joining n (join [] r.error)) rest p)
  joins :
      (r : Report) (rest : List Report) (n : ℕ) (es : List Error)
      → p.stage ≡ joining (suc n) es
      → p.errs ≡ r ∷ rest
      → Step total p (take_report (joining n (join es r.error)) rest p)
  finishes :
      (es : List Error) → p.stage ≡ joining 0 es → Step total p (record p { stage = returned es })

abbrev pub init : List Listener → Process
init ls = record { running = ls; errs = []; stage = waiting; cancelled = false; sent = [] }

pub data Reach (ls : List Listener) : ℕ → Process → Type 0 where
  start : Reach ls 0 (init ls)
  next : {n : ℕ} {p q : Process} → Reach ls n p → Step (length ls) p q → Reach ls (suc n) q
