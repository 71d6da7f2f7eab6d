-- ===== src/Resilience.antt =====
-- crates/orbit-resilience/src/lib.rs: the retry policy, `retry_async` and the circuit breaker.
-- A `Duration` is its number of nanoseconds, an `Instant` one since some start.
pub mod Retry
pub mod Attempts
pub mod Delays
pub mod Breaker
pub mod Trips
pub mod Cooldown
mod Tests
