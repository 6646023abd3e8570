-- ===== src/Netutil.antt =====
-- internal/netutil: the accept loop and the relay between two connections.
pub mod Accept
pub mod Pipe
