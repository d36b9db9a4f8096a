-- ===== src/UnitTests/Querying.antt =====
-- src/checks/sqlx.rs, the unit tests of the database check.
use healthkit.Base.{◌+◌, ◌≤◌, ◌<◌, ◌≡◌, true, codes, Text, [], Result, ok, err, length, ◌==◌}
use healthkit.Async.{Time, Async, done, panicked, ◌>>=◌}
use healthkit.Async.Runtime.{Runtime, Late}
use healthkit.Duration.{from_secs, from_millis}
use healthkit.Types.{HealthStatus, healthy, degraded}
use healthkit.Errors.{HealthCheckError, dependency_unavailable, check_timed_out}
use healthkit.Registry.{Features, new, check_all, text_eq}
use healthkit.Checks.Sqlx
use healthkit.Checks.Sqlx.{Database, SqlxCheck, probe_query}
use healthkit.UnitTests.Harness.{◌>>◌, assert, unwrap, first, status_eq, blocking}
use healthkit.UnitTests.Expositions.{contains}

module _ (db : Database) where
  -- A trivial query is answered, in less than 50 milliseconds.
  abbrev pub IsOpen : db.Pool → Type 0
  IsOpen pool =
      (now : Time)
      → (t : Time) × (q : db.QueryResult) × (now < t)
        × (t ≤ now + from_millis 50)
        × (db.execute probe_query pool now ≡ done t (ok q))

  -- "After close, acquire fails", and with it each query.
  abbrev pub IsClosed : db.Pool → Type 0
  IsClosed pool =
      (now : Time)
      → (t : Time) × (e : db.SqlxError) × (t < now + from_secs 2)
        × (db.execute probe_query pool now ≡ done t (err e))

  -- A query waits for a connection.
  abbrev pub IsExhausted : db.Pool → Type 0
  IsExhausted pool = (now : Time) → Late (now + from_millis 100) (db.execute probe_query pool now)

  -- A pool of one connection to a database in memory. What closes it, or takes its connection,
  -- returns the pool as later queries find it.
  pub record Sqlite : Type 0 where
    pub memory_pool : Async db.Pool
    pub close : db.Pool → Async db.Pool
    pub acquire : db.Pool → Async db.Pool
    pub opens :
        (now : Time) → (t : Time) × (pool : db.Pool) × (memory_pool now ≡ done t pool) × IsOpen pool
    pub closes :
        (pool : db.Pool) (now : Time)
        → (t : Time) × (pool' : db.Pool) × (close pool now ≡ done t pool') × IsClosed pool'
    pub acquires :
        (pool : db.Pool) (now : Time)
        → IsOpen pool
        → (t : Time) × (pool' : db.Pool) × (acquire pool now ≡ done t pool') × IsExhausted pool'

-- The match on the error of a probe that failed.
abbrev pub fails_with : Result HealthStatus HealthCheckError → Text → Async (Unit {0})
unfolding contains
fails_with (err (dependency_unavailable msg)) part = assert (contains msg part)
fails_with _ part = λ now. panicked now

abbrev pub times_out_after : Result HealthStatus HealthCheckError → Time → Async (Unit {0})
times_out_after (err (check_timed_out d)) deadline = assert (d == deadline)
times_out_after _ deadline = λ now. panicked now

module _ (rt : Runtime) (features : Features) (db : Database) (sqlite : Sqlite db) where
  open sqlite use {memory_pool, close, acquire}

  unfoldable pub healthy_when_probe_succeeds_within_threshold : Async (Unit {0})
  unfolding Sqlx.new Sqlx.check
  healthy_when_probe_succeeds_within_threshold = do
    pool ← memory_pool
    r ← Sqlx.check db rt (Sqlx.new db pool (from_secs 2) 500)
    status ← unwrap r
    assert (status_eq status healthy)

  unfoldable pub degraded_when_latency_exceeds_threshold : Async (Unit {0})
  unfolding Sqlx.new Sqlx.check
  degraded_when_latency_exceeds_threshold = do
    pool ← memory_pool
    r ← Sqlx.check db rt (Sqlx.new db pool (from_secs 2) 0)
    status ← unwrap r
    assert (status_eq status degraded)

  unfoldable pub builder_overrides_are_applied : Async (Unit {0})
  unfolding Sqlx.new Sqlx.with_timeout Sqlx.with_warn_above_ms Sqlx.check
  builder_overrides_are_applied = do
    pool ← memory_pool
    let check =
        Sqlx.with_warn_above_ms db
          (Sqlx.with_timeout db (Sqlx.new db pool (from_secs 30) 0) (from_secs 5)) 50
    r ← Sqlx.check db rt check
    status ← unwrap r
    assert (status_eq status healthy)
    closed ← close pool
    assert true

  unfoldable pub unhealthy_when_probe_fails : Async (Unit {0})
  unfolding Sqlx.new Sqlx.check
  unhealthy_when_probe_fails = do
    pool ← memory_pool
    pool ← close pool
    r ← Sqlx.check db rt (Sqlx.new db pool (from_secs 2) 500)
    fails_with r (codes "database probe failed")

  unfoldable pub times_out_when_probe_exceeds_deadline : Async (Unit {0})
  unfolding Sqlx.new Sqlx.check
  times_out_when_probe_exceeds_deadline = do
    pool ← memory_pool
    pool ← acquire pool
    r ← Sqlx.check db rt (Sqlx.new db pool (from_millis 100) 500)
    times_out_after r (from_millis 100)

  unfoldable pub register_integrates_with_registry : Async (Unit {0})
  unfolding new Sqlx.new Sqlx.register check_all blocking text_eq
  register_integrates_with_registry = do
    let (registry, s) = new []
    pool ← memory_pool
    s ←
        blocking rt
          (Sqlx.register db rt (Sqlx.new db pool (from_secs 2) 500) registry (codes "database")) s
    (results, emitted) ← check_all rt features s registry
    assert (length results == 1)
    result ← first results
    assert (text_eq result.name (codes "database"))
    assert (status_eq result.status healthy)
