-- ===== src/Retry.antt =====
-- retry.go: the circuit breaker and the retry loops.
pub mod Breaker
pub mod Loop
mod Tests
