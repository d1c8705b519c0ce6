-- ===== src/Server.antt =====
-- internal/proxy/types.go and server.go: the state of the proxy that the node manager, the health
-- checks and the request loop share.
pub mod Defs
pub mod Accounts
pub mod Keys
mod Tests
