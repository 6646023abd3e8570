-- ===== src/Transport.antt =====
-- internal/transport: the data plane.
pub mod Options
pub mod Plan
pub mod Stream
pub mod Stealth
pub mod Settings
pub mod Conn
pub mod Session
pub mod Udp
pub mod WsConn
pub mod Kcp
pub mod Carrier
pub mod Quic
pub mod Serve
pub mod Local
