-- ===== src/Wiring.antt =====
-- How the server's maps hang together, and which operations leave that alone.
pub mod Same
pub mod Search
pub mod Attempts
