-- ===== src/Config.antt =====
-- internal/config/config.go: the configuration files and their validation.
-- Opening and decoding a file (os, encoding/json) and the path of the default certificate
-- (path/filepath) are parameters.
pub mod Kcp
pub mod Fields
pub mod Server
pub mod Client
pub mod Load
