-- ===== src/Retry.antt =====
-- The configuration of the retries: internal/proxy/retry.go.
pub mod Config
pub mod Limits
mod Tests
