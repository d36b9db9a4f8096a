-- ===== src/Examples/Pools.antt =====
-- src/checks/sqlx.rs: a pool as the unit tests of the database check use one.
use healthkit.Base.{◌+◌, refl, Text, codes, Result, ok, err, All, arith}
use healthkit.Async.{Async, done, hangs}
use healthkit.Duration.{from_millis}
use healthkit.Checks.Sqlx.{Database}
use healthkit.UnitTests.Harness.{Passes}
use healthkit.UnitTests.Querying.{Sqlite}
use healthkit.UnitTests.QueryingPasses.{sqlx_tests, sqlx_tests-Passes}
use healthkit.Examples.Fixtures.{tireless, with_metrics}

data Pool : Type 0 where
  open_pool closed_pool busy_pool : Pool

abbrev run_query : Pool → Async (Result Text Text)
run_query open_pool now = done (now + from_millis 1) (ok (codes "1"))
run_query closed_pool now = done now (err (codes "the pool is closed"))
run_query busy_pool now = hangs

abbrev memory : Database
memory = record {
  Pool = Pool;
  QueryResult = Text;
  SqlxError = Text;
  sqlx_error_text = λ e. e;
  execute = λ query. run_query;
}

abbrev sqlite : Sqlite memory
sqlite = record {
  memory_pool = λ now. done now open_pool;
  close = λ pool now. done now closed_pool;
  acquire = λ pool now. done now busy_pool;
  opens = λ now.
      (now, open_pool, refl, λ u. (u + from_millis 1, codes "1", omega arith, omega arith, refl));
  closes =
      λ pool now. (now, closed_pool, refl, λ u. (u, codes "the pool is closed", omega arith, refl));
  acquires = λ pool now is_open. (now, busy_pool, refl, λ u. tt);
}

sqlx_tests_run : All (λ test. Passes (test 7)) (sqlx_tests tireless with_metrics memory sqlite)
sqlx_tests_run = sqlx_tests-Passes tireless with_metrics memory sqlite 7 (λ t. refl)
