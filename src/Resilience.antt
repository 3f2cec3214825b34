-- ===== src/Resilience.antt =====
-- app/gateway/resilience.py: drain, load shedding, the circuit breaker and the retry budget.
pub mod Breaker
pub mod Retry
pub mod Shedding
pub mod Drain
mod Witnesses
