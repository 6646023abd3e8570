-- ===== src/Lib.antt =====
-- G-Tun: an authenticated, multi-protocol tunnel in Go.
--
-- The server authenticates clients, tells them which transport to run (internal/server,
-- internal/control) and relays the streams or datagrams of that transport to a target
-- (internal/transport). The client keeps a control connection to the server and runs the announced
-- transport (internal/client). Both rest on the handshake of internal/auth and on the validated
-- files of internal/config.
--
-- Which file models what:
-- - Prelude, Result: byte sequences, integers, tests; the error values of the whole program.
-- - Net: the functions on texts of Go's net and strconv that the program uses.
-- - Proto: internal/proto/proto.go, the protocols' names and classes.
-- - Auth.Mac, Auth.Datagram, Auth.Handshake: internal/auth. Auth.Io is the language of programs
--   over one connection: reads of a full buffer, writes, random bytes, deadlines, closing. `run`
--   executes such a program against a peer whose bytes are fixed, on a connection that holds for a
--   given number of writes and deadline calls; Auth.Io.Duplex runs two programs against each other,
--   Auth.Io.Wire with the closing that the other side sees, and Auth.Handshake.Opening is the handshake at the start of two longer programs.
-- - Control: internal/control/control.go, Send, Receive and Equal.
-- - Config: internal/config/config.go, the two files, their defaults and their validation.
-- - Tls: internal/tlsutil/tlsutil.go, the TLS configurations and the pinned certificate.
--   Tls.Generate: GenerateSelfSigned, with the two files that it writes.
-- - Netutil.Accept: internal/netutil/accept.go, AcceptLoop over the results of Accept.
--   Netutil.Pipe: internal/netutil/pipe.go, the two halves of a relay as a step relation.
-- - Server: internal/server/server.go, what Run starts, the announcement and handleControl.
--   Server.Run: the goroutines of Run, its channel and the errors that it joins, as a step relation.
-- - Client.Runner: the runner of internal/client/runner.go. Client.Control: runControl and runStatic
--   (internal/client/client.go), which hand the announced settings to it.
-- - Client.Loop: the loop of Run (internal/client/client.go) and supervise
--   (internal/client/runner.go), with what happens in each round given. Client.Process: Run with its
--   runner and the connection of each round. Client.Runner.Threads: the goroutines that run
--   supervise, and the wait of stopLocked for them, as a step relation.
--   Client.Runner.Slot: the abstract view of both, one slot for a transport.
-- - Command: the commands under cmd and internal/logging/logging.go, from the flags to the exit status.
-- - Transport.Options, Transport.Plan, Transport.Conn: NewServer and NewClient
--   (internal/transport/transport.go), the dispatch on the protocol and handleConn
--   (internal/transport/server.go, client.go). Transport.Conn.Joined, Transport.Conn.Greeted,
--   Transport.Conn.Ended: clientHandshake and dialAuthenticated against handleConn, call by call.
-- - Transport.Stream: the streams that Pipe relays (internal/transport/session.go), and the two relays
--   of a tunnel. Transport.Settings, Transport.Stealth: the constants and the settings of the
--   libraries, and the stealth server's handler (internal/transport/transport.go, quic.go, stealth.go).
-- - Transport.Session: sessionDialer (internal/transport/session.go). Transport.Udp: udpRelay
--   (internal/transport/udp.go). Both are records, each critical section of the mutex is one
--   function, and the goroutines are a step relation over these functions.
--   Transport.Session.Backends: the smux and QUIC sessions behind the dialer.
--   Transport.Udp.Traffic: the goroutines of udpRelay with what they write; a round of run's loop or
--   of pump's is one step there. Transport.Udp.Loop is the loop of run, with what it leaves when it
--   returns, and the critical section of sweep; Transport.Udp.Loop.Closing is the loop of sweep, whose
--   closes come later, with any steps of the other goroutines in between. Transport.Udp.Loop.Used
--   tells by the traffic when a session was last used.
-- - Transport.WsConn: wsConn (internal/transport/wsconn.go), its Read, and its Write in
--   Transport.WsConn.Write, which has the deadlines too.
-- - Transport.Kcp: internal/transport/kcp.go. Transport.Carrier: the client's dials, up to an
--   authenticated connection or a smux session (internal/transport/client.go, stealth.go).
-- - Transport.Quic: the QUIC connections of both sides and their streams (internal/transport/quic.go,
--   session.go, server.go, client.go); a stream is a connection of its own. Transport.Quic.Ended: both
--   ends of the first stream, call by call.
-- - Transport.Local: the client's Run with its local listener, the goroutines of the accepted
--   connections and their session dialer (internal/transport/client.go), as a step relation.
-- - Transport.Serve: Serve with the listener of each protocol (internal/transport/server.go,
--   stealth.go, udp.go), over the answers of the libraries.
-- - System: the two processes together, from their configurations to a data connection.
-- - Tests: runs at concrete inputs, and the theorems at inputs that meet their conditions.
--
-- Go strings and byte slices are lists of numbers, errors are values of `Result`, times are
-- numbers of nanoseconds or seconds, and an `int` is an integer; the only sums of the modelled
-- code that could overflow are those of the waits, which stay below two minutes. The loops run
-- over lists of what happens in their rounds. The joined runs of the two handshakes, of a data
-- connection, of QUIC's authentication and of the whole control exchange take a number of calls as
-- fuel; eight, thirteen, fourteen and fifteen calls are enough, and the statements hold for any
-- greater number. The loop of wsConn.Read takes its rounds as fuel; one more than the messages that
-- it can skip is enough.
--
-- Parameters: HMAC-SHA256 (a function with values of 32 bytes), JSON, the file system, PEM and
-- X.509 files, key generation, the cipher of kcp-go, the handshake of sing-shadowtls, the sockets of
-- gorilla/websocket, and what the network, the disk and the clock do. Constant-time
-- comparison is plain equality here. The end of a context closes connections in the source;
-- in the models that is a connection on which a read or a write fails.
-- Not modelled: what smux, quic-go, kcp-go, gorilla/websocket, sing-shadowtls and uTLS do inside their
-- calls, log lines, the flag package and signals, and the shell scripts.
pub mod Prelude
pub mod Result
pub mod Proto
pub mod Auth
pub mod Net
pub mod Config
pub mod Control
pub mod Transport
pub mod Netutil
pub mod Client
pub mod Command
pub mod Tls
pub mod Server
pub mod System
mod Tests
