-- ===== src/Request.antt =====
-- A request to /v1/messages: internal/proxy/handler.go and internal/proxy/metrics.go.
pub mod Metrics
pub mod Loop
pub mod Flags
pub mod Agreement
pub mod Bound
mod Tests
