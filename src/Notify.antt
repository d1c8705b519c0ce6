-- ===== src/Notify.antt =====
-- The notifications: internal/notify/manager.go.
pub mod Defs
pub mod Spacing
pub mod Delivery
mod Tests
