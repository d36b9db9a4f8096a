-- ===== src/Examples/Sweeps.antt =====
-- src/registry.rs: sweeps of a registry with a failing and a hanging check.
use healthkit.Base.{
  ◌+◌, ◌≡◌, refl, inr, codes, List, [], ◌∷◌, flat_map, none, some, false, arith, if◌then◌else◌, ok,
  err, ◌↔◌, ◌≢◌, All, ◌≤◌, Result,
}
use healthkit.Async.{Time, done, panicked, hangs}
use healthkit.Async.Runtime.{latest}
use healthkit.Duration.{from_secs, from_millis, debug}
use healthkit.Types.{HealthStatus, CheckResult, status_text, healthy, degraded, unhealthy}
use healthkit.Errors.{error_text, HealthCheckError, dependency_unavailable}
use healthkit.Registry.{
  Store, checks_of, check_all, check_group, emit_facade_metrics, check_liveness, Emission, counter,
  histogram,
}
use healthkit.Registry.Passing.{Passes}
use healthkit.Registry.Verdicts.{check_liveness-Passes}
use healthkit.Registry.Emissions.{
  total, observed, occurrences, durations, duration_histogram, result_counter, check_all-total,
}
use healthkit.Registry.Reports.{EndsBy}
use healthkit.Registry.Sweeps.{AllAnswer, AnyUnwinds, AllReport, check_all-Reports}
use healthkit.Registry.Grouped.{GroupAnswers, GroupReports, check_group-Reports}
use healthkit.Registry.Latest.{conclusions, check_all-latest}
use healthkit.Registry.Ends.{AnyStuck, check_all-Ends}
use healthkit.Registry.Durations.{check_all-duration}
use healthkit.Metrics.{latency_buckets}
use healthkit.Metrics.Exact.{exact}
use healthkit.Metrics.Covered.{CountsInLast, check_all-covered}
use healthkit.Examples.Fixtures.{
  rt, with_metrics, store, registry, fragile, small, db, cache, migrations,
}

-- A sweep of four checks takes two seconds, the deadline of the one that hangs.
abbrev swept : List CheckResult
swept =
    record { name = codes "db"; status = healthy; message = none; duration = from_millis 3 }
    ∷ record {
      name = codes "cache";
      status = unhealthy;
      message = some (codes "dependency unavailable: connection refused");
      duration = from_millis 1;
    }
    ∷ record {
      name = codes "hanging";
      status = unhealthy;
      message = some (codes "health check timed out after 2s");
      duration = from_secs 2;
    }
    ∷ record { name = codes "migrations"; status = degraded; message = none; duration = 0 }
    ∷ []

check_all_test :
    check_all rt (record { metrics = false }) store registry 7 ≡ done (7 + from_secs 2) (swept, [])
unfolding check_all error_text debug
check_all_test = refl

check_all-Reports_example :
    (t : Time) × (results : List CheckResult) × (check_all rt with_metrics store registry 7
      ≡ done t (results, if with_metrics.metrics then flat_map emit_facade_metrics results else []))
    × AllReport rt.lag registry.default_timeout 7 (checks_of store registry) results
    × EndsBy (7 + registry.default_timeout + rt.lag) registry.default_timeout t
check_all-Reports_example = check_all-Reports rt with_metrics store registry 7 (omega arith)

-- The second check of this registry unwinds.
check_all-Ends_example :
    (((t : Time) × (results : List CheckResult) × (emitted : List Emission) × (check_all rt
            with_metrics store fragile 7
          ≡ done t (results, emitted)))
      ↔ AllAnswer fragile.default_timeout 7 (checks_of store fragile))
    × (((t : Time) × (check_all rt with_metrics store fragile 7 ≡ panicked t))
        ↔ AnyUnwinds fragile.default_timeout 7 (checks_of store fragile))
    × ((check_all rt with_metrics store fragile 7 ≡ hangs) ↔ (
        AnyStuck fragile.default_timeout 7 (checks_of store fragile)
        × (¬ AnyUnwinds fragile.default_timeout 7 (checks_of store fragile))))
check_all-Ends_example = check_all-Ends rt with_metrics store fragile 7

-- The other checks of the registry may do what they want.
pub init_answers : GroupAnswers rt store registry (codes "init") 7
init_answers = (λ e. tt, (λ e. tt, (λ e. omega arith, (λ e. tt, tt))))

check_group-Reports_example :
    (t : Time) × (results : List CheckResult) × (check_group rt store registry (codes "init") 7
      ≡ done t results)
    × GroupReports
        (codes "init")
        rt.lag
        registry.default_timeout
        7
        (checks_of store registry)
        results
    × EndsBy (7 + registry.default_timeout + rt.lag) registry.default_timeout t
check_group-Reports_example = check_group-Reports rt store registry (codes "init") 7 init_answers

check_liveness-Passes_example :
    (t : Time) × (status : HealthStatus) × (emitted : List Emission) × (check_liveness rt
        with_metrics store registry 7
      ≡ done t (ok status, emitted))
    × ((status ≡ healthy)
        ↔ All (Passes (λ x. x ≡ healthy) registry.default_timeout 7) (checks_of store registry))
    × ((status ≢ unhealthy)
        ↔ All (Passes (λ x. x ≢ unhealthy) registry.default_timeout 7) (checks_of store registry))
    × EndsBy (7 + registry.default_timeout + rt.lag) registry.default_timeout t
check_liveness-Passes_example = check_liveness-Passes rt with_metrics store registry 7 (omega arith)

abbrev pub db_result : CheckResult
db_result = record { name = codes "db"; status = healthy; message = none; duration = from_millis 3 }

abbrev pub db_emitted : List Emission
db_emitted =
    counter (codes "healthkit_check_result")
      ((codes "name", codes "db") ∷ (codes "status", codes "healthy") ∷ []) 1
    ∷ histogram (codes "healthkit_check_duration_seconds") ((codes "name", codes "db") ∷ [])
        (from_millis 3)
    ∷ []

pub small_sweep :
    check_all rt with_metrics store small 7 ≡ done (7 + from_millis 3) (db_result ∷ [], db_emitted)
unfolding check_all flat_map status_text
small_sweep = refl

check_all-total_example :
    (total result_counter
        ((codes "name", codes "db") ∷ (codes "status", status_text healthy) ∷ [])
        db_emitted
      ≡ occurrences (codes "db") healthy (db_result ∷ []))
    × (observed duration_histogram ((codes "name", codes "db") ∷ []) db_emitted
        ≡ durations (codes "db") (db_result ∷ []))
check_all-total_example =
    check_all-total rt with_metrics store small 7 (7 + from_millis 3) (db_result ∷ []) db_emitted
      (codes "db") healthy refl small_sweep

check_all-duration_example : All (λ x. x.duration ≤ small.default_timeout + rt.lag) (db_result ∷ [])
check_all-duration_example =
    check_all-duration rt with_metrics store small 7 (7 + from_millis 3) (db_result ∷ []) db_emitted
      (omega arith) small_sweep

-- Three checks that complete after three, one and no milliseconds.
abbrev prompt : Store
prompt = (db ∷ cache ∷ migrations ∷ []) ∷ []

abbrev outcomes : List (Time × Result HealthStatus HealthCheckError)
outcomes =
    (7 + from_millis 3, ok healthy)
    ∷ (7 + from_millis 1, err (dependency_unavailable (codes "connection refused")))
    ∷ (7, ok degraded)
    ∷ []

check_all-latest_example :
    check_all rt with_metrics prompt registry 7
    ≡ done (latest 7 outcomes) (
      conclusions 7 (checks_of prompt registry) outcomes,
      if with_metrics.metrics
          then flat_map emit_facade_metrics (conclusions 7 (checks_of prompt registry) outcomes)
          else [],
    )
check_all-latest_example =
    check_all-latest rt 7 with_metrics prompt registry outcomes
      (refl, inr (omega arith), (refl, inr (omega arith), (refl, inr (omega arith), tt)))

latest_test : latest 7 outcomes ≡ 7 + from_millis 3
latest_test = refl

check_all-covered_example :
    All
      (λ x. CountsInLast exact (exact.as_secs_f64 x.duration) (latency_buckets exact))
      (db_result ∷ [])
check_all-covered_example =
    check_all-covered exact rt with_metrics store small 7 (7 + from_millis 3) (db_result ∷ [])
      db_emitted (omega arith) (omega arith) small_sweep
