-- ===== src/Nodes.antt =====
-- Nodes added, changed and removed: internal/proxy/node_manager.go.
pub mod Manage
pub mod Toggle
pub mod Agreement
pub mod Enabling
pub mod Effects
mod Tests
