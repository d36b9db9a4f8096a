-- ===== src/IntegrationTests.antt =====
-- tests/sqlx_check.rs and tests/redis_check.rs, as programs over any runtime, and that they pass.
pub mod Readiness
pub mod ReadinessPasses
