-- ===== src/Registry.antt =====
-- src/registry.rs: the registry of health checks and its sweeps. The children `Run` and `Aggregate`
-- hold the run of one check and the aggregation of results; the others hold the proofs.
mod Register
mod Run
mod Aggregate
mod Sweep
pub mod Reports
pub mod Sweeps
pub mod Worst
pub mod Sharing
pub mod Groups
pub mod Grouped
pub mod Passing
pub mod Histories
pub mod Emissions
pub mod Verdicts
pub mod Latest
pub mod Ends
pub mod Durations
pub mod Interleavings
pub use Register.{RegisteredCheck, HealthRegistry, Store, checks_of, IsAllocated}
unfoldable pub use Register.{
  new, default, with_default_timeout, default_timeout, add_check, add_check_to_group,
  add_check_inner, add_check_async, add_check_to_group_async, add_check_inner_async,
}
unfoldable pub use Run.{fold_outcome, run_one}
unfoldable pub use Aggregate.{severity, max_by_key, aggregate}
pub use Sweep.{Features, Emission, counter, histogram}
unfoldable pub use Sweep.{
  emit_facade_metrics, text_eq, in_group, members, check_all, check_group, check_liveness,
  check_readiness,
}
