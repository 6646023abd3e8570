-- ===== src/Server/Run/Reasons.antt =====
-- internal/server/server.go: why `Run` returns an error, from its configuration to its return.
use g_tun.Prelude.{
  ℕ, ◌≡◌, refl, ap, sym, Bool, true, false, Option, none, some, List, [], ◌∷◌, ◌++◌, All, ◌⊎◌, inl,
  inr, subst,
}
use g_tun.Result.{Result, ok, err, Error, listen_control}
use g_tun.Auth.Mac.{Hmac}
use g_tun.Proto.Classes.{parse_iff}
use g_tun.Tls.{TlsFiles}
use g_tun.Config.Server.{Server, IsValid}
use g_tun.Transport.Options.{ServerOptions}
use g_tun.Transport.Kcp.{Ciphers, TakesKeys}
use g_tun.Transport.Serve.{serving, accept_all, over}
use g_tun.Transport.Serve.Fails.{Failure, serving_fails}
use g_tun.Netutil.Accept.{Event, accept_loop}
use g_tun.Server.{Service, start, server_options}
use g_tun.Server.Start.{Serves, start_cases}
use g_tun.Server.Run.{
  Listener, data_listener, control_listener, listeners, Report, returned, join, Process,
  Surroundings, serve_control, listener_result, Reach,
}
use g_tun.Server.Run.Joins.{errors_of, run_joins}

-- The result that a report stands for.
abbrev as_result : Option Error → Result (Unit {0})
as_result none = ok tt
as_result (some e) = err e

over_fine : (b : Bool) {e : Error} → over b ≡ some (err e) → ⊥
over_fine true h = cc
over_fine false h = cc

accept_all_fine : (es : List Event) (e : Error) → (accept_all es).result ≡ some (err e) → ⊥
unfolding accept_all
accept_all_fine es e failed = over_fine (accept_loop 0 es).returned failed

module _ (h : Hmac) (lib : Ciphers) (takes : TakesKeys lib) (files : TlsFiles) (cfg : Server)
    (s : Service) (w : Surroundings) where
  -- The listener of the report returned what it reports.
  abbrev pub IsReported : Report → Type 0
  IsReported r = listener_result h lib s w r.from ≡ some (as_result r.error)

  -- Why a listener fails: for a reason of the protocol's listener, or since the control port cannot
  -- be opened.
  abbrev pub Reason : Error → Type 0
  Reason e =
      Failure cfg.protocol w.site
        (serving h lib cfg.token s.transport.opts.kcp cfg.protocol w.site).handled e
      ⊎ ((e ≡ listen_control) × (w.control_listens ≡ false))

  control_fails :
      (e : Error) (b : Bool)
      → w.control_listens ≡ b
      → (serve_control b w.control_events).result ≡ some (err e)
      → (e ≡ listen_control) × (w.control_listens ≡ false)
  unfolding serve_control
  control_fails e false is failed = (cc, is)
  control_fails e true is failed = absurd (accept_all_fine w.control_events e failed)

  configured : IsValid cfg → start files cfg ≡ ok s → Serves files cfg s
  configured v started = elim (start_cases files cfg v) [
    | inl (s', started', serves) ↦ subst (Serves files cfg) (cc) serves
    | inr (kcp, failed, no_pair) ↦ absurd (cc)
  ]

  reported-Reason :
      Serves files cfg s
      → IsValid cfg
      → (from : Listener) (e : Error) → listener_result h lib s w from ≡ some (err e)
      → Reason e
  unfolding listener_result server_options
  reported-Reason serves v data_listener e failed =
      let same = serves.made.0 in
      let token_same : s.transport.opts.token ≡ cfg.token =
        ap (λ (o : ServerOptions). o.token) same in
      let protocol_same : s.transport.opts.protocol ≡ cfg.protocol =
        ap (λ (o : ServerOptions). o.protocol) same in
      inl (
        serving_fails h lib cfg.token s.transport.opts.kcp takes w.site cfg.protocol cfg.protocol e
          ((parse_iff cfg.protocol cfg.protocol).1 (refl, v.known))
          (rw (token_same, protocol_same) at failed))
  reported-Reason serves v control_listener e failed =
      inr (control_fails e w.control_listens refl failed)

  joined-Reason :
      Serves files cfg s
      → IsValid cfg
      → (from : Listener) (e : Option Error) (es : List Error)
      → listener_result h lib s w from ≡ some (as_result e)
      → All Reason es
      → All Reason (join [] e ++ es)
  joined-Reason serves v from none es honest all = all
  joined-Reason serves v from (some e) es honest all = (reported-Reason serves v from e honest, all)

  reasons :
      Serves files cfg s
      → IsValid cfg
      → (rs : List Report) → All IsReported rs
      → All Reason (errors_of rs)
  reasons serves v [] all = tt
  reasons serves v (r ∷ rs) (honest, all) =
      joined-Reason serves v r.from r.error (errors_of rs) honest (reasons serves v rs all)

  -- The server's `Run` of a validated configuration, once it has started its listeners, returns an
  -- error only for a reason that one of them had: each error that it joins is one of the data
  -- listener's protocol, or the control port could not be opened. The condition is that each report
  -- is what its listener returned; AES takes keys of 32 bytes.
  pub run_reasons :
      (n : ℕ) (p : Process) (es : List Error)
      → IsValid cfg
      → start files cfg ≡ ok s
      → Reach (listeners s) n p
      → p.stage ≡ returned es
      → All IsReported p.sent
      → All Reason es
  run_reasons n p es v started r ended honest =
      let (_, _, joined, _) = run_joins s n p es r ended in
      subst (All Reason) (sym joined) (reasons (configured v started) v p.sent honest)
