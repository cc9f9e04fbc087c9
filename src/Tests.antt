-- ===== src/Tests.antt =====
-- Runs of the modelled code on concrete inputs, and the theorems at such inputs.
mod CircuitBreaker
mod RateLimiter
mod Bulkhead
mod RetryPolicy
mod Cache
mod Rbac
mod Tasks
mod Fallback
mod Errors
mod Server
mod Discover
mod Qos
mod MethodName
mod Proto
mod Security
mod Chain
mod Runtime
mod Thrift
