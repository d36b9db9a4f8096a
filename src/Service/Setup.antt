-- ===== src/Service/Setup.antt =====
-- examples/k8s_service.rs: the flags, the registrations and the routes.
use healthkit.Base.{
  Bool, true, Text, codes, Option, none, some, Result, ok, err, ◌++◌, leb, if◌then◌else◌,
}
use healthkit.Async.{Time, done, Async, pure, ◌>>=◌}
use healthkit.Async.Runtime.{Runtime}
use healthkit.Duration.{from_secs}
use healthkit.Types.{HealthStatus, healthy}
use healthkit.Errors.{HealthCheckError, dependency_unavailable, shutting_down}
use healthkit.Registry.{
  HealthRegistry, Store, Features, new, with_default_timeout, add_check, add_check_to_group,
}
use healthkit.Routes.{
  Response, Router, default_config, liveness_route, ping_route, readiness_route_with,
  startup_route_for_group, detailed_route_with,
}
use healthkit.Scrapes.{MetricsState, Cell, metrics_route_with_cache}
use healthkit.Checks.Redis
use healthkit.Checks.Sqlx

-- A flag that tasks share: what a load finds, by the instant of the load.
abbrev pub AtomicBool : Type 0
AtomicBool = Time → Bool

unfoldable pub load : AtomicBool → Async Bool
load flag now = done now (flag now)

-- `flag.store(true)` at an instant.
abbrev pub store_true : Time → AtomicBool → AtomicBool
store_true at flag now = if leb at now then true else flag now

unfoldable pub initialized_check : AtomicBool → Async (Result HealthStatus HealthCheckError)
unfolding load
initialized_check initialized = do
  up ← load initialized
  pure (if up then ok healthy else err (dependency_unavailable (codes "initialization")))

unfoldable pub draining_check : AtomicBool → Async (Result HealthStatus HealthCheckError)
unfolding load
draining_check draining = do
  down ← load draining
  pure (if down then err shutting_down else ok healthy)

-- The routes, with what stands behind `/metrics`.
pub record App : Type 0 where
  pub healthz : Async Response
  pub ping : Async Response
  pub router : Router
  pub metrics : Text × (MetricsState × Cell)

module _ (rt : Runtime) (redis : Redis.RedisClient) (db : Sqlx.Database) where
  -- `if let Some(url) = redis_url`
  unfoldable pub register_cache : Option Text → HealthRegistry → Store → Store
  unfolding Redis.register Redis.new
  register_cache none registry s = s
  register_cache (some url) registry s =
      Redis.register rt redis (Redis.new url (from_secs 2) 500) registry (codes "cache") s

  -- The task that builds the registry.
  unfoldable pub setup :
      db.Pool → Option Text → AtomicBool → AtomicBool → Store → HealthRegistry × Store
  unfolding new with_default_timeout add_check add_check_to_group Sqlx.register Sqlx.new
      register_cache initialized_check draining_check
  setup pool redis_url draining initialized s =
      let (fresh, s1) = new s in
      let registry = with_default_timeout fresh (from_secs 2) in
      let probe = Sqlx.new db pool (from_secs 2) 500 in
      let s2 = Sqlx.register db rt probe registry (codes "database") s1 in
      let s3 = register_cache redis_url registry s2 in
      let s4 =
        add_check_to_group registry (codes "init") (codes "initialized")
          (initialized_check initialized) s3 in
      let s5 = add_check registry (codes "draining") (draining_check draining) s4 in (registry, s5)

module _ (rt : Runtime) (features : Features) where
  unfoldable pub app : HealthRegistry → App
  unfolding liveness_route ping_route readiness_route_with startup_route_for_group
      detailed_route_with metrics_route_with_cache default_config
  app registry = record {
    healthz = liveness_route;
    ping = ping_route;
    router =
        readiness_route_with rt features registry default_config
        ++ (startup_route_for_group rt features registry (codes "init")
            ++ detailed_route_with rt features registry default_config);
    metrics = metrics_route_with_cache registry (from_secs 5);
  }
