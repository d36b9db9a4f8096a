-- ===== src/Checks/Sqlx.antt =====
-- src/checks/sqlx.rs: the `SELECT 1` probe of a connection pool, under a deadline.
use healthkit.Base.{Text, codes, ◌++◌, Result, ok, err, ltb, if◌then◌else◌}
use healthkit.Async.{Async, pure, instant_now, elapsed, ◌>>=◌}
use healthkit.Async.Runtime.{Runtime, Elapsed}
use healthkit.Duration.{Duration, from_millis}
use healthkit.Types.{HealthStatus, healthy, degraded}
use healthkit.Errors.{HealthCheckError, check_timed_out, dependency_unavailable}
use healthkit.Registry.{HealthRegistry, Store, add_check}

-- What the check uses of the sqlx crate: `query(…).execute(&pool)`.
pub record Database : Type 1 where
  pub Pool : Type 0
  pub QueryResult : Type 0
  pub SqlxError : Type 0
  pub sqlx_error_text : SqlxError → Text
  pub execute : Text → Pool → Async (Result QueryResult SqlxError)

abbrev pub probe_query : Text
probe_query = codes "SELECT 1"

module _ (db : Database) where
  pub record SqlxCheck : Type 0 where
    pub pool : db.Pool
    pub timeout : Duration
    pub warn_above : Duration

  unfoldable pub new : db.Pool → Duration → Duration → SqlxCheck
  new pool timeout warn_above_ms = record {
    pool = pool;
    timeout = timeout;
    warn_above = from_millis warn_above_ms;
  }

  unfoldable pub with_timeout : SqlxCheck → Duration → SqlxCheck
  with_timeout check timeout = record check { timeout = timeout }

  unfoldable pub with_warn_above_ms : SqlxCheck → Duration → SqlxCheck
  with_warn_above_ms check warn_above_ms = record check { warn_above = from_millis warn_above_ms }

  -- The match of `check` on what the probe came to.
  unfoldable pub judge :
      SqlxCheck
      → Duration
      → Result (Result db.QueryResult db.SqlxError) Elapsed
      → Result HealthStatus HealthCheckError
  judge check took (ok (ok done)) = if ltb check.warn_above took then ok degraded else ok healthy
  judge check took (ok (err e)) =
      err (dependency_unavailable (codes "database probe failed: " ++ db.sqlx_error_text e))
  judge check took (err e) = err (check_timed_out check.timeout)

  unfoldable pub check : Runtime → SqlxCheck → Async (Result HealthStatus HealthCheckError)
  check rt self = do
    start ← instant_now
    probe ← rt.timeout self.timeout (db.execute probe_query self.pool)
    took ← elapsed start
    pure (judge self took probe)

  unfoldable pub register : Runtime → SqlxCheck → HealthRegistry → Text → Store → Store
  unfolding add_check check
  register rt self registry name s = add_check registry name (check rt self) s
