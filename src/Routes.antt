-- ===== src/Routes.antt =====
-- src/axum.rs: the route handlers. A response is the tuple that a handler hands to axum, before axum
-- serializes it; the store is the one that the request finds.
mod Handlers
pub mod Readiness
pub mod Reordered
pub mod Startup
pub use Handlers.{
  StatusCode, internal_server_error, service_unavailable, Body, json_liveness, json_readiness,
  json_health, plain, empty, Response, ReadinessConfig, HealthState, StartupState, Handler, Route,
  Router,
}
unfoldable pub use Handlers.{
  readiness_response, startup_response, default_config, fail_degraded, liveness_handler,
  ping_handler, readiness_status_code, aggregate_status, readiness_handler, startup_handler,
  detailed_handler, liveness_route, ping_route, readiness_route, readiness_route_with,
  startup_route, startup_route_for_group, startup_route_for_group_inner, detailed_route,
  detailed_route_with,
}
