-- ===== src/Breaker.antt =====
-- internal/proxy/circuit_breaker.go: the circuit breaker that the proxy keeps for each node.
-- A method that mutates `*CircuitBreaker` returns the new value beside its result; a nil receiver is
-- `none`. The mutex makes each method one step. `now` is what `time.Now()` returns in it.
pub mod Defs
pub mod Config
pub mod Window
pub mod Transitions
pub mod Trials
pub mod Opening
mod Tests
