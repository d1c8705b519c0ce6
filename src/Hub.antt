-- ===== src/Hub.antt =====
-- The dashboard's connections: internal/proxy/ws_hub.go.
pub mod Defs
pub mod Sound
pub mod Turns
pub mod Isolation
mod Tests
