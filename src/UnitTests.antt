-- ===== src/UnitTests.antt =====
-- The unit tests that stand in the source files, as programs over any runtime, and that they pass.
pub mod Harness
mod InRuntime
mod Sweeping
mod Grouping
mod Statuses
pub mod Probing
pub mod ProbingPasses
pub mod Suite
mod Crate
mod Documented
pub mod Expositions
pub mod Querying
pub mod QueryingPasses
pub mod FakeRedis
pub mod Pinging
pub mod Served
pub mod PingingPasses
