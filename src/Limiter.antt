-- ===== src/Limiter.antt =====
-- apps/api/src/security/rate-limiter.ts: `FixedWindowRateLimiter`. A `Map` is a list of entries with
-- distinct keys; keys are only compared, instants are milliseconds.
pub mod Buckets
pub mod Entries
pub mod Windows
pub mod Bound
