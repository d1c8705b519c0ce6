-- ===== src/Recovery.antt =====
-- How nodes fail and recover: internal/proxy/health.go.
pub mod Failing
pub mod Check
pub mod Coherent
pub mod Agreement
mod Tests
