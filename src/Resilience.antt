-- ===== src/Resilience.antt =====
-- packages/benzene-resilience: policies around one `Result`-returning call.
pub mod CircuitBreaker
pub mod Saga
pub mod RateLimit
pub mod Guards
pub mod Idempotency
pub mod Bulkhead
mod Tests
