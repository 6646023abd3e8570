-- ===== src/Transport/Local/Tunnels.antt =====
-- internal/transport/client.go: the sessions that the client's `Run` leaves, and its connections.
use g_tun.Prelude.{ℕ, ◌<◌, ◌≤◌, ◌≡◌, refl, Bool, true, false, ltb, ◌==◌, if◌then◌else◌, arith, ◌∙◌}
use g_tun.Result.{Result, ok, err, dialer_closed}
use g_tun.Transport.Session.{Dialer, Network, session, discard, close}
use g_tun.Transport.Session.Owned
use g_tun.Transport.Session.Owned.{closings, Reach-Owned, session-connected}
use g_tun.Transport.Local.{
  Tunnel, dialing, opening, piped, finished, Local, accept_local, obtain, obtained, open_succeeds,
  open_fails, relay_ends, leave, Step, accepts, obtains, opens, open_errors, relays, leaves, Reach,
  start, next,
}

-- The session that a goroutine holds was connected.
abbrev pub Holds : ℕ → Tunnel → Type 0
Holds n (dialing last) = Unit
Holds n (opening last s) = s < n
Holds n (piped s) = s < n
Holds n finished = Unit

record Connected (l : Local) : Type 0 where
  pub history : Owned.Reach l.dialer
  pub holds : (c : ℕ) → Holds l.dialer.connected (l.tunnels c)
  pub over : l.serving ≡ false → l.dialer.closed ≡ true
  -- Only the accepted connections have goroutines.
  pub fresh : (c : ℕ) → l.accepted ≤ c → l.tunnels c ≡ finished

Holds-mono : (n m : ℕ) (t : Tunnel) → n ≤ m → Holds n t → Holds m t
Holds-mono n m (dialing last) le h = tt
Holds-mono n m (opening last s) le h = omega arith
Holds-mono n m (piped s) le h = omega arith
Holds-mono n m finished le h = tt

discard-connected : (s : ℕ) (d : Dialer) → (discard s d).connected ≡ d.connected
unfolding discard
discard-connected s d = ground arith

close-connected : (d : Dialer) → ((close d).connected ≡ d.connected) × ((close d).closed ≡ true)
unfolding close
close-connected d = ground arith

session-closed : (net : Network) (d : Dialer) → (session net d).1.closed ≡ d.closed
unfolding session
session-closed net d = ground arith

discard-closed : (s : ℕ) (d : Dialer) → (discard s d).closed ≡ d.closed
unfolding discard
discard-closed s d = ground arith

-- What holds of the new tunnel and of the others holds of all.
set-ind :
    (P : Tunnel → Type 0) (c k : ℕ) (new old : Tunnel)
    → P new
    → P old
    → P (if c == k then new else old)
set-ind P c k new old at_new at_old = go (c == k)
  where
    go : (b : Bool) → P (if b then new else old)
    go true = at_new
    go false = at_old

-- The step of one goroutine, behind which the dialer is `d`.
moves-Connected :
    (l : Local) (c : ℕ) (t : Tunnel) (d : Dialer)
    → Connected l
    → c < l.accepted
    → Owned.Reach d
    → l.dialer.connected ≤ d.connected
    → d.closed ≡ l.dialer.closed
    → Holds d.connected t
    → Connected (record l { dialer = d; tunnels = λ k. if c == k then t else l.tunnels k })
moves-Connected l c t d i within reached grows same new = record {
  history = reached;
  holds = λ k.
      set-ind (Holds d.connected) c k t (l.tunnels k) new
        (Holds-mono _ _ (l.tunnels k) grows (i.holds k));
  over = λ e. same ∙ i.over e;
  fresh = λ k after. ground (arith, i.fresh k);
}

-- A goroutine that is not finished is that of an accepted connection.
busy : (l : Local) (c : ℕ) → Connected l → (l.tunnels c ≡ finished → ⊥) → c < l.accepted
busy l c i h = ground (arith, i.fresh c)

Step-Connected : {l l' : Local} → Step l l' → Connected l → Connected l'
unfolding accept_local obtain obtained open_succeeds open_fails relay_ends leave
Step-Connected {l} (accepts e) i = record {
  history = i.history;
  holds = λ k.
      set-ind (Holds l.dialer.connected) l.accepted k (dialing false) (l.tunnels k) tt (i.holds k);
  over = i.over;
  fresh = λ k after. ground (arith, i.fresh k);
}
Step-Connected {l} (obtains net c last e) i =
    let (grows, gives) = session-connected net l.dialer i.history in
    moves-Connected l c (obtained last (session net l.dialer).0) (session net l.dialer).1 i
      (busy l c i (λ h. cc)) (Owned.next i.history (Owned.obtains net)) grows
      (session-closed net l.dialer) (go (session net l.dialer).0 gives)
  where
    go :
        (r : Result ℕ)
        → ((s : ℕ) → r ≡ ok s → s < (session net l.dialer).1.connected)
        → Holds (session net l.dialer).1.connected (obtained last r)
    go (ok s) gives = gives s refl
    go (err x) gives = tt
Step-Connected {l} (opens c s last e) i =
    moves-Connected l c (piped s) l.dialer i (busy l c i (λ h. cc)) i.history (omega arith) refl
      (rw e at (i.holds c))
Step-Connected {l} (open_errors c s last e) i =
    moves-Connected l c _ (discard s l.dialer) i (busy l c i (λ h. cc))
      (Owned.next i.history (Owned.discards s (rw e at (i.holds c))))
      (omega (arith, discard-connected s l.dialer)) (discard-closed s l.dialer) (go last)
  where
    go : (b : Bool) → Holds (discard s l.dialer).connected (if b then finished else dialing true)
    go true = tt
    go false = tt
Step-Connected {l} (relays c s e) i =
    moves-Connected l c finished l.dialer i (busy l c i (λ h. cc)) i.history (omega arith) refl tt
Step-Connected {l} (leaves e) i =
    let (same, done) = close-connected l.dialer in
    record {
      history = Owned.next i.history Owned.closes;
      holds = λ k. Holds-mono _ _ (l.tunnels k) (omega arith) (i.holds k);
      over = λ _. done;
      fresh = i.fresh;
    }

Reach-Connected : {l : Local} → Reach l → Connected l
Reach-Connected start = record {
  history = Owned.start;
  holds = λ c. tt;
  over = λ e. cc;
  fresh = λ c h. refl;
}
Reach-Connected (next r st) = Step-Connected st (Reach-Connected r)

refused : (net : Network) (d : Dialer) → d.closed ≡ true → session net d ≡ (err dialer_closed, d)
unfolding session
refused net d e = rw e refl

-- Once the client's `Run` has returned, in every history of it and of its connections: each session
-- that was ever connected is closed, exactly once, and none is connected any more, since a
-- connection that is still dialing is given the error of the closed dialer, and is closed. A
-- connection that is still relayed has a stream of a session that was connected.
pub tunnels_settle :
    (l : Local)
    → Reach l
    → l.serving ≡ false
    → ((s : ℕ) → closings s l.dialer.shut ≡ (if ltb s l.dialer.connected then 1 else 0))
      × ((net : Network) (c : ℕ) (last : Bool)
          → (session net l.dialer ≡ (err dialer_closed, l.dialer))
            × ((obtain net c last l).tunnels c ≡ finished))
      × ((c : ℕ) → Holds l.dialer.connected (l.tunnels c))
unfolding obtain obtained
tunnels_settle l r over = (
  λ s. ground (arith, (Reach-Owned i.history).once s, (Reach-Owned i.history).sealed, i.over over),
  λ net c last. let no = refused net l.dialer (i.over over) in (no, rw no (ground arith)),
  i.holds,
)
  where
    i : Connected l
    i = Reach-Connected r
