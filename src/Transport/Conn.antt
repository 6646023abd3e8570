-- ===== src/Transport/Conn.antt =====
-- internal/transport: one raw connection on the server, `serverHandshake`, `handleConn` and
-- `handleStream`, and the client's `clientHandshake`.
pub mod Guarded
pub mod Joined
pub mod Greeted
pub mod Ended
use g_tun.Prelude.{Bytes, Bool, true, false, not, List, [], ◌∷◌, map, if◌then◌else◌}
use g_tun.Result.{Result, ok, err, Error}
use g_tun.Result
use g_tun.Proto.{Name, mux}
use g_tun.Auth.Mac.{Hmac}
use g_tun.Auth.Io.{Io, pure, bind, close, ◌>>=◌, ◌>>◌, return, sets_deadline}
use g_tun.Auth.Handshake.{client_handshake, server_handshake}

-- `handshake`: `fn` under a deadline, which is cleared if it succeeds.
unfoldable pub handshake : {A : Type 0} → Io (Result A) → Io (Result (Unit {0}))
handshake fn = do
  sets_deadline true Result.set_deadline
  fn
  sets_deadline false Result.set_deadline
  return tt

-- What becomes of a stream at the target: the relay ran until it was over, or the target could not
-- be dialed. The stream is closed in both cases.
pub data Fate : Type 0 where
  relayed unreachable : Fate

-- `dials` tells whether the dial of the target succeeds.
unfoldable pub handle_stream : Bool → Fate
handle_stream dials = if dials then relayed else unreachable

-- What `handleConn` does with a connection: the error that ended it, or the streams for each of
-- which it dialed the target.
pub data Served : Type 0 where
  rejected : Error → Served
  no_session : Served
  served : List Fate → Served

module _ (h : Hmac) (token : Bytes) where
  unfoldable pub server_handshake_on : Io (Result (Unit {0}))
  server_handshake_on = handshake (server_handshake h token)

  unfoldable pub client_handshake_on : Io (Result (Unit {0}))
  client_handshake_on = handshake (client_handshake h token)

  -- After the handshake. `starts` tells whether the smux session starts, and `dials` lists, for
  -- each stream that it accepts until it ends, whether the target can be dialed; a connection
  -- without smux is one stream, with `direct` for its dial.
  pub after_auth : Bool → Bool → Bool → List Bool → Result (Unit {0}) → Io Served
  unfolding handle_stream
  after_auth muxed direct starts dials (err e) = close (pure (rejected e))
  after_auth muxed direct starts dials (ok u) =
      if not muxed
      then close (pure (served (handle_stream direct ∷ [])))
      else if starts
      then close (pure (served (map handle_stream dials)))
      else close (pure no_session)

  unfoldable pub handle_conn : Name → Bool → Bool → List Bool → Io Served
  unfolding after_auth
  handle_conn protocol direct starts dials =
      bind server_handshake_on (after_auth (mux protocol) direct starts dials)
