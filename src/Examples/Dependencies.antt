-- ===== src/Examples/Dependencies.antt =====
-- src/checks: probes of a server that answers after four milliseconds.
use healthkit.Base.{
  List, [], ◌∷◌, none, ◌+◌, ◌≡◌, ◌<◌, refl, ◌⊎◌, Text, codes, ◌++◌, Result, ok, err, arith,
}
use healthkit.Async.{Time, Async, done, panicked, hangs}
use healthkit.Duration.{from_millis, from_secs, max_duration}
use healthkit.Types.{HealthStatus, healthy, CheckResult}
use healthkit.Registry.{Emission, checks_of, check_all}
use healthkit.Registry.Reports.{EndsBy}
use healthkit.Registry.Sweeps.{AllReport}
use healthkit.Checks.Registered.{check_all-register}
use healthkit.Errors.{HealthCheckError, check_failed}
use healthkit.Checks.Redis
use healthkit.Checks.Redis.{RedisClient, RedisCheck, ping}
use healthkit.Checks.RedisOutcomes.{check-overflow}
use healthkit.Checks.RedisProbed.{Probed, check-Probed}
use healthkit.Checks.SqlxQueried.{Queried, check-Queried}
use healthkit.Checks.Sqlx
use healthkit.Checks.Sqlx.{Database, SqlxCheck, probe_query}
use healthkit.Examples.Fixtures.{rt, with_metrics, store, registry}

abbrev answers : {A : Type 0} → A → Async (Result A Text)
answers a now = done (now + from_millis 1) (ok a)

abbrev silent : {A : Type 0} → Async (Result A Text)
silent now = hangs

abbrev pub server : RedisClient
server = record {
  Client = Text;
  Connection = Text;
  RedisError = Text;
  redis_error_text = λ e. e;
  open_url = λ url now. done now (ok url);
  get_connection = λ client. answers client;
  set_read_timeout = λ connection d now. done now (ok connection);
  set_write_timeout = λ connection d now. done now (ok connection);
  query = λ command connection now. done (now + from_millis 3) (ok (codes "PONG"));
}

-- A server that accepts the connection and never answers.
abbrev pub silent_server : RedisClient
silent_server = record server { query = λ command connection. silent }

abbrev local : RedisCheck
local = record {
  url = codes "redis://127.0.0.1:6379";
  timeout = from_secs 2;
  warn_above = from_millis 500;
}

abbrev unlimited : RedisCheck
unlimited = record local { timeout = max_duration }

local-new : Redis.new (codes "redis://127.0.0.1:6379") (from_secs 2) 500 ≡ local
unfolding Redis.new
local-new = refl

check-Probed_example :
    (t : Time) × (r : Result HealthStatus HealthCheckError) × (Redis.check rt silent_server local 7
      ≡ done t r)
    × Probed rt silent_server local 7 t r
check-Probed_example = check-Probed rt silent_server local 7

check-overflow_example :
    (e : rt.JoinError) × (Redis.check rt server unlimited 7
      ≡ done
          (7 + from_millis 1)
          (err (check_failed (codes "redis probe task failed: " ++ rt.join_error_text e))))
check-overflow_example =
    check-overflow rt server unlimited 7 local.url local.url 7 (7 + from_millis 1) refl refl refl
      (omega arith) (omega arith)

-- A database whose probe never ends.
abbrev exhausted : Database
exhausted = record {
  Pool = Text;
  QueryResult = Text;
  SqlxError = Text;
  sqlx_error_text = λ e. e;
  execute = λ query pool. silent;
}

abbrev pool_check : SqlxCheck exhausted
pool_check = record { pool = codes "pool"; timeout = from_millis 100; warn_above = from_millis 500 }

-- A database that answers after a millisecond.
abbrev pub quick : Database
quick = record {
  Pool = Text;
  QueryResult = Text;
  SqlxError = Text;
  sqlx_error_text = λ e. e;
  execute = λ query pool. answers query;
}

abbrev quick_check : SqlxCheck quick
quick_check = record {
  pool = codes "pool";
  timeout = from_millis 100;
  warn_above = from_millis 500;
}

check-Queried_example :
    ((t : Time) × (r : Result HealthStatus HealthCheckError) × (Sqlx.check exhausted rt pool_check 7
        ≡ done t r)
      × Queried rt.lag exhausted pool_check 7 t r)
    ⊎ ((t : Time) × (exhausted.execute probe_query pool_check.pool 7 ≡ panicked t)
        × (t < 7 + pool_check.timeout)
        × (Sqlx.check exhausted rt pool_check 7 ≡ panicked t))
check-Queried_example = check-Queried rt exhausted pool_check 7

quick_check_test : Sqlx.check quick rt quick_check 7 ≡ done (7 + from_millis 1) (ok healthy)
unfolding Sqlx.check Sqlx.judge
quick_check_test = refl

check_all-register_example :
    (t : Time) × (results : List CheckResult) × (emitted : List Emission) × (check_all rt
        with_metrics
        (Redis.register rt silent_server local registry (codes "redis") store)
        registry
        7
      ≡ done t (results, emitted))
    × AllReport rt.lag registry.default_timeout 7
        (checks_of store registry
          ++ record {
            name = codes "redis";
            group = none;
            check_fn = Redis.check rt silent_server local;
          }
            ∷ [])
        results
    × EndsBy (7 + registry.default_timeout + rt.lag) registry.default_timeout t
check_all-register_example =
    check_all-register rt silent_server local with_metrics store registry (codes "redis") 7
      (omega arith) (omega arith)
