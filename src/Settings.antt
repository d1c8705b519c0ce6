-- ===== src/Settings.antt =====
-- The settings: internal/store/mysql.go, internal/proxy/settings_cache.go and settings_handler.go.
pub mod Table
pub mod Store
pub mod Seed
pub mod Cache
pub mod Typed
pub mod Handler
pub mod Rows
pub mod Locking
pub mod RoundTrip
pub mod Duplicates
pub mod Batch
pub mod Access
pub mod Cached
mod Tests
