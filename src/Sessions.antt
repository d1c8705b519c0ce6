-- ===== src/Sessions.antt =====
-- Login sessions: internal/proxy/session.go.
pub mod Defs
pub mod Expiry
mod Tests
