-- ===== src/Transport/Local.antt =====
-- internal/transport/client.go: `Run` of the client for the protocols whose streams share a session,
-- with the goroutines of the accepted connections and the dialer that they share (session.go).
-- A local connection is known by its number, in the order of the accepts. Each critical section of
-- the dialer's mutex, each open of a stream and each end of a relay is a step of its own.
pub mod Tunnels
use g_tun.Prelude.{ℕ, suc, Bool, true, false, ◌==◌, if◌then◌else◌, ◌≡◌, ◌<◌}
use g_tun.Result.{Result, ok, err, listen}
use g_tun.Transport.Session.{Dialer, Network, session, discard, close}
use g_tun.Transport.Session

-- Where the goroutine of a connection is: in a round of `Dial` before or behind the lookup of the
-- session, `true` for the last round; in `Pipe`, over a stream of a session; or done, with the
-- connection closed.
pub data Tunnel : Type 0 where
  dialing : (last : Bool) → Tunnel
  opening : (last : Bool) (s : ℕ) → Tunnel
  piped : (s : ℕ) → Tunnel
  finished : Tunnel

pub record Local : Type 0 where
  pub dialer : Dialer
  pub accepted : ℕ
  pub tunnels : ℕ → Tunnel
  -- The accept loop has not returned.
  pub serving : Bool

abbrev pub init : Local
init = record { dialer = Session.init; accepted = 0; tunnels = λ c. finished; serving = true }

-- The listener cannot be opened: the deferred `dialer.Close` has no session to close.
unfoldable open_local : Bool → Result Local
open_local listens = if listens then ok init else err listen

abbrev set_tunnel : ℕ → Tunnel → Local → Local
set_tunnel c t l = record l { tunnels = λ k. if c == k then t else l.tunnels k }

unfoldable pub accept_local : Local → Local
accept_local l = set_tunnel l.accepted (dialing false) (record l { accepted = suc l.accepted })

-- An error of the lookup ends `Dial`, and the connection is closed.
obtained : Bool → Result ℕ → Tunnel
obtained last (err e) = finished
obtained last (ok s) = opening last s

unfoldable pub obtain : Network → ℕ → Bool → Local → Local
unfolding obtained
obtain net c last l =
    let (r, d) = session net l.dialer in set_tunnel c (obtained last r) (record l { dialer = d })

unfoldable pub open_succeeds : ℕ → ℕ → Local → Local
open_succeeds c s l = set_tunnel c (piped s) l

-- The session is discarded, and the first round is followed by the last.
unfoldable pub open_fails : ℕ → Bool → ℕ → Local → Local
open_fails c last s l =
    set_tunnel c (if last then finished else dialing true)
      (record l { dialer = discard s l.dialer })

-- `Pipe` closes both connections.
unfoldable pub relay_ends : ℕ → Local → Local
relay_ends c l = set_tunnel c finished l

-- The accept loop returns, and with it `Run`, with the deferred `dialer.Close`.
unfoldable pub leave : Local → Local
leave l = record l { dialer = close l.dialer; serving = false }

pub data Step (l : Local) : Local → Type 0 where
  accepts : l.serving ≡ true → Step l (accept_local l)
  obtains :
      (net : Network) (c : ℕ) (last : Bool)
      → l.tunnels c ≡ dialing last
      → Step l (obtain net c last l)
  opens : (c s : ℕ) (last : Bool) → l.tunnels c ≡ opening last s → Step l (open_succeeds c s l)
  open_errors :
      (c s : ℕ) (last : Bool) → l.tunnels c ≡ opening last s → Step l (open_fails c last s l)
  relays : (c s : ℕ) → l.tunnels c ≡ piped s → Step l (relay_ends c l)
  leaves : l.serving ≡ true → Step l (leave l)

pub data Reach : Local → Type 0 where
  start : Reach init
  next : {l l' : Local} → Reach l → Step l l' → Reach l'
