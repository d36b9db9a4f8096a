-- ===== src/Scrapes.antt =====
-- src/metrics.rs: `MetricsState`, the handler of `/metrics` and its cache of a rendered exposition.
mod Cache
pub mod Cached
pub mod Idle
pub mod Crowd
pub mod Staleness
pub mod Rate
pub mod Spacing
pub mod Age
pub use Cache.{Cell, MetricsState, new_cell}
unfoldable pub use Cache.{
  new, with_cache, cached_within, lookup, remember, render, metrics_handler, metrics_route,
  metrics_route_with_cache,
}
