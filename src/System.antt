-- ===== src/System.antt =====
-- The server as a whole: the operations of internal/proxy as steps, and what holds in every state that
-- they lead to.
pub mod Steps
pub mod Adding
pub mod Reachable
mod Tests
