-- ===== src/Auth.antt =====
-- internal/auth: the shared-secret authentication.
-- HMAC-SHA256 (crypto/hmac, crypto/sha256) is the parameter `Hmac`; all else is the source's.
pub mod Io
pub mod Mac
pub mod Datagram
pub mod Handshake
