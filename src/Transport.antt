-- ===== src/Transport.antt =====
-- One attempt at an upstream with its retries: internal/proxy/reverse_proxy.go.
pub mod Defs
pub mod Outcome
pub mod Usage
mod Tests
