-- ===== src/Resilience.antt =====
-- resilience.go: the circuit breaker and the retry manager.
pub mod Machine
pub mod Breaker
pub mod Retry
