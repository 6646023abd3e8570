-- ===== src/Client.antt =====
-- internal/client: g-tun-client.
pub mod Loop
pub mod Runner
pub mod Control
pub mod Process
