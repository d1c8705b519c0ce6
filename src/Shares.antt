-- ===== src/Shares.antt =====
-- The shared links of the dashboard: internal/store/monitor_share.go.
pub mod Defs
pub mod Revoked
mod Tests
