-- ===== src/Metrics.antt =====
-- src/metrics.rs: the Prometheus text exposition and the cached scrapes.
mod Floats
mod Render
pub mod Exact
pub mod Exposition
pub mod Escape
pub mod Samples
pub mod RoundTrip
pub mod Buckets
pub mod Capacity
pub mod Covered
pub use Floats.{Float}
pub use Render.{bucket_count}
unfoldable pub use Render.{
  latency_buckets, healthiness_value, escape_label, fmt_float, render_prometheus,
}
