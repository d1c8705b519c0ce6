-- ===== src/Health.antt =====
-- internal/proxy/health.go, warmup.go: probing the nodes and what a probe changes.
pub mod Probe
pub mod Record
pub mod Apply
pub mod Keeps
