-- ===== src/Resilience.antt =====
-- The resilience patterns of src/aduib_rpc/resilience.
pub mod CircuitBreaker
pub mod RateLimiter
pub mod Bulkhead
pub mod RetryPolicy
pub mod Cache
pub mod IdempotencyCache
pub mod Fallback
