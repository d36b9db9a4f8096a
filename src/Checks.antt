-- ===== src/Checks.antt =====
-- src/checks: production dependency checks.
pub mod Redis
pub mod Sqlx
pub mod RedisOutcomes
pub mod RedisProbed
pub mod SqlxOutcomes
pub mod SqlxQueried
pub mod Registered
