-- ===== src/Select.antt =====
-- Selecting the active node: internal/proxy/node_manager.go and internal/proxy/warmup.go.
pub mod Warmup
pub mod Pick
pub mod Activate
pub mod Best
pub mod Order
pub mod Rounds
pub mod Settles
mod Tests
