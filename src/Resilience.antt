-- ===== src/Resilience.antt =====
-- Guards against failing or overloaded services: resilience/error_circuit_breaker.py,
-- core/rate_limiter.py and resilience/retry.py, with runs and the theorems at concrete inputs.
pub mod Breaker
pub mod Limiter
pub mod Retry
pub mod Breaking
pub mod Limits
pub mod Attempts
mod Tests
