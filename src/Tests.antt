-- ===== src/Tests.antt =====
-- Runs of the models at concrete inputs, and the theorems at inputs that meet their conditions.
mod Samples
mod Handshake
mod Datagrams
mod Settings
mod Configs
mod Control
mod WebSockets
mod Sessions
mod Loops
mod Pipes
mod Carriers
mod Certificates
mod Processes
mod Servers
mod Locals
mod Systems
