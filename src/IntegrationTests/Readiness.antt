-- ===== src/IntegrationTests/Readiness.antt =====
-- tests/sqlx_check.rs and tests/redis_check.rs: what a registered check makes of the readiness.
use healthkit.Base.{codes, [], ◌∷◌, length, ◌==◌}
use healthkit.Async.{Async, ◌>>=◌}
use healthkit.Async.Runtime.{Runtime}
use healthkit.Duration.{from_secs}
use healthkit.Types.{healthy, degraded, unhealthy}
use healthkit.Registry.{Features, new, check_readiness, text_eq}
use healthkit.Checks.Redis
use healthkit.Checks.Sqlx
use healthkit.UnitTests.Harness.{◌>>◌, assert, unwrap, first, status_eq, blocking}
use healthkit.UnitTests.Querying.{Sqlite}
use healthkit.UnitTests.Pinging.{Sockets, line}

module _ (rt : Runtime) (features : Features) (db : Sqlx.Database) (sqlite : Sqlite db) where
  open sqlite use {memory_pool, close}

  unfoldable pub registered_check_flows_through_readiness : Async (Unit {0})
  unfolding new Sqlx.new Sqlx.register check_readiness blocking text_eq
  registered_check_flows_through_readiness = do
    let (registry, s) = new []
    pool ← memory_pool
    s ←
        blocking rt
          (Sqlx.register db rt (Sqlx.new db pool (from_secs 2) 500) registry (codes "database")) s
    (r, emitted) ← check_readiness rt features s registry
    (status, results) ← unwrap r
    assert (status_eq status healthy)
    assert (length results == 1)
    result ← first results
    assert (text_eq result.name (codes "database"))
    assert (status_eq result.status healthy)

  unfoldable pub failed_probe_folds_into_unhealthy_readiness : Async (Unit {0})
  unfolding new Sqlx.new Sqlx.register check_readiness blocking
  failed_probe_folds_into_unhealthy_readiness = do
    let (registry, s) = new []
    pool ← memory_pool
    pool ← close pool
    s ←
        blocking rt
          (Sqlx.register db rt (Sqlx.new db pool (from_secs 2) 500) registry (codes "database")) s
    (r, emitted) ← check_readiness rt features s registry
    (status, results) ← unwrap r
    assert (status_eq status unhealthy)
    result ← first results
    assert (status_eq result.status unhealthy)

  unfoldable pub probe_over_threshold_reports_degraded_readiness : Async (Unit {0})
  unfolding new Sqlx.new Sqlx.register check_readiness blocking
  probe_over_threshold_reports_degraded_readiness = do
    let (registry, s) = new []
    pool ← memory_pool
    s ←
        blocking rt
          (Sqlx.register db rt (Sqlx.new db pool (from_secs 2) 0) registry (codes "database")) s
    (r, emitted) ← check_readiness rt features s registry
    (status, results) ← unwrap r
    assert (status_eq status degraded)
    result ← first results
    assert (status_eq result.status degraded)

module _ (rt : Runtime) (features : Features) (redis : Redis.RedisClient)
    (sockets : Sockets redis) where
  open sockets use {fake_redis, refused_addr}

  unfoldable pub healthy_ping_flows_through_readiness : Async (Unit {0})
  unfolding new Redis.new Redis.register check_readiness blocking text_eq
  healthy_ping_flows_through_readiness = do
    url ← fake_redis (b'+' ∷ line (codes "PONG"))
    let (registry, s) = new []
    s ←
        blocking rt
          (Redis.register rt redis (Redis.new url (from_secs 5) 500) registry (codes "cache")) s
    (r, emitted) ← check_readiness rt features s registry
    (status, results) ← unwrap r
    assert (status_eq status healthy)
    assert (length results == 1)
    result ← first results
    assert (text_eq result.name (codes "cache"))
    assert (status_eq result.status healthy)

  unfoldable pub error_reply_folds_into_unhealthy_readiness : Async (Unit {0})
  unfolding new Redis.new Redis.register check_readiness blocking
  error_reply_folds_into_unhealthy_readiness = do
    url ← fake_redis (b'-' ∷ line (codes "ERR boom"))
    let (registry, s) = new []
    s ←
        blocking rt
          (Redis.register rt redis (Redis.new url (from_secs 5) 500) registry (codes "cache")) s
    (r, emitted) ← check_readiness rt features s registry
    (status, results) ← unwrap r
    assert (status_eq status unhealthy)
    result ← first results
    assert (status_eq result.status unhealthy)

  unfoldable pub connection_refused_folds_into_unhealthy_readiness : Async (Unit {0})
  unfolding new Redis.new Redis.register check_readiness blocking
  connection_refused_folds_into_unhealthy_readiness = do
    url ← refused_addr
    let (registry, s) = new []
    s ←
        blocking rt
          (Redis.register rt redis (Redis.new url (from_secs 5) 500) registry (codes "cache")) s
    (r, emitted) ← check_readiness rt features s registry
    (status, results) ← unwrap r
    assert (status_eq status unhealthy)
