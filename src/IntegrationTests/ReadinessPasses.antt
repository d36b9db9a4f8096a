-- ===== src/IntegrationTests/ReadinessPasses.antt =====
-- tests/sqlx_check.rs and tests/redis_check.rs: the tests of the registered checks pass.
use healthkit.Base.{
  ◌+◌, ◌-◌, ◌<◌, ◌≡◌, refl, ◌∙◌, inr, true, false, codes, Text, none, flat_map, if◌then◌else◌, List,
  [], ◌∷◌, Result, ok, err, ltb, All, arith,
}
use healthkit.Async.{Time, Async, continue, done}
use healthkit.Async.Runtime.{Runtime}
use healthkit.Duration.{from_secs, from_millis}
use healthkit.Types.{HealthStatus, CheckResult, healthy}
use healthkit.Errors.{HealthCheckError}
use healthkit.Registry.{
  Emission, emit_facade_metrics, Features, RegisteredCheck, check_readiness, new, fold_outcome,
  text_eq, add_check, aggregate,
}
use healthkit.Registry.Reports.{concluded}
use healthkit.Registry.Latest.{check_readiness-latest}
use healthkit.Checks.Redis
use healthkit.Checks.Redis.{RedisClient, ping}
use healthkit.Checks.Sqlx
use healthkit.Checks.Sqlx.{Database}
use healthkit.UnitTests.Harness.{
  Passes, Passes-continue, ◌&◌, ltb_ge, blocking, blocking-done, made, empty,
}
use healthkit.UnitTests.Querying.{Sqlite}
use healthkit.UnitTests.QueryingPasses.{check-open, check-degraded, check-closed}
use healthkit.UnitTests.Pinging.{Sockets, IsError}
use healthkit.UnitTests.Served.{check-Answers, check-error}
use healthkit.IntegrationTests.Readiness.{
  registered_check_flows_through_readiness, failed_probe_folds_into_unhealthy_readiness,
  probe_over_threshold_reports_degraded_readiness, healthy_ping_flows_through_readiness,
  error_reply_folds_into_unhealthy_readiness, connection_refused_folds_into_unhealthy_readiness,
}

abbrev Readiness : Type 0
Readiness = Result (HealthStatus × List CheckResult) HealthCheckError × List Emission

module _ (rt : Runtime) (features : Features) (name : Text)
    (check : Async (Result HealthStatus HealthCheckError)) where
  abbrev registered : RegisteredCheck
  registered = record { name = name; group = none; check_fn = check }

  abbrev readiness : Time → Time → Result HealthStatus HealthCheckError → Readiness
  readiness t u o =
      let result = concluded registered t u o in
      (
        ok (aggregate (result ∷ []), result ∷ []),
        if features.metrics then flat_map emit_facade_metrics (result ∷ []) else [],
      )

  -- A check is registered from a blocking task, and is done before the deadline of the registry:
  -- the rest of the test goes on with the readiness of that one result.
  readiness-continue :
      {t u : Time} {o : Result HealthStatus HealthCheckError} (rest : Readiness → Async (Unit {0}))
      → rt.accepts t ≡ true
      → check t ≡ done u o
      → u < t + from_secs 5
      → ((v : Time) → Passes (rest (readiness t u o) v))
      → Passes (
          continue
            (blocking rt (add_check made name check) empty t)
            (λ s now. continue (check_readiness rt features s made now) rest))
  unfolding add_check
  readiness-continue {t} {u} {o} rest up ran soon passes =
      Passes-continue _ _ (blocking-done rt (add_check made name check) empty t up) (
        Passes-continue _ _
          (check_readiness-latest rt t features (add_check made name check empty) made ((u, o) ∷ [])
            (ran, inr soon, tt))
          (passes _))

module _ (rt : Runtime) (features : Features) (db : Database) (sqlite : Sqlite db) (now : Time)
    (up : (t : Time) → rt.accepts t ≡ true) where
  registered-Passes : Passes (registered_check_flows_through_readiness rt features db sqlite now)
  unfolding registered_check_flows_through_readiness new Sqlx.new Sqlx.register add_check text_eq
      fold_outcome aggregate
  registered-Passes =
      let (t, pool, opened, is_open) = sqlite.opens now in
      let check = Sqlx.new db pool (from_secs 2) 500 in
      let (u, soon, ran) = check-open rt db check t is_open (omega arith) (omega arith) in
      Passes-continue _ _ opened (
        readiness-continue rt features (codes "database") (Sqlx.check db rt check) _ (up t) ran
          (omega arith) (λ v. (v, refl)))

  failed-Passes : Passes (failed_probe_folds_into_unhealthy_readiness rt features db sqlite now)
  unfolding failed_probe_folds_into_unhealthy_readiness new Sqlx.new Sqlx.register add_check
      fold_outcome aggregate
  failed-Passes =
      let (t, pool, opened, is_open) = sqlite.opens now in
      let (t', pool', closed, is_closed) = sqlite.closes pool t in
      let check = Sqlx.new db pool' (from_secs 2) 500 in
      let (u, e, soon, ran) = check-closed rt db check t' is_closed (omega arith) in
      Passes-continue _ _ opened (
        Passes-continue _ _ closed (
          readiness-continue rt features (codes "database") (Sqlx.check db rt check) _ (up t') ran
            (omega arith) (λ v. (v, refl))))

  over_threshold-Passes :
      Passes (probe_over_threshold_reports_degraded_readiness rt features db sqlite now)
  unfolding probe_over_threshold_reports_degraded_readiness new Sqlx.new Sqlx.register add_check
      fold_outcome aggregate
  over_threshold-Passes =
      let (t, pool, opened, is_open) = sqlite.opens now in
      let check = Sqlx.new db pool (from_secs 2) 0 in
      let (u, soon, ran) = check-degraded rt db check t is_open (omega arith) refl in
      Passes-continue _ _ opened (
        readiness-continue rt features (codes "database") (Sqlx.check db rt check) _ (up t) ran
          (omega arith) (λ v. (v, refl)))

module _ (rt : Runtime) (features : Features) (redis : RedisClient) (sockets : Sockets redis)
    (now : Time) (up : (t : Time) → rt.accepts t ≡ true) where
  ping-Passes : Passes (healthy_ping_flows_through_readiness rt features redis sockets now)
  unfolding healthy_ping_flows_through_readiness new Redis.new Redis.register Redis.judge add_check
      text_eq fold_outcome aggregate
  ping-Passes =
      let (t, url, served, answers) = sockets.simple_string (codes "PONG") now (omega arith) in
      let check = Redis.new url (from_secs 5) 500 in
      let (u, r, after, soon, is, ran) =
        check-Answers rt redis check t (λ r. r ≡ ok (codes "PONG")) (up t) answers (omega arith)
          (omega arith) in
      let quick : ltb (from_millis 500) (u - t) ≡ false = ltb_ge _ _ (omega arith) in
      let healthy_ran : Redis.check rt redis check t ≡ done u (ok healthy) =
        ran ∙ rw (is, quick) refl in
      Passes-continue _ _ served (
        readiness-continue rt features (codes "cache") (Redis.check rt redis check) _ (up t)
          healthy_ran (omega arith) (λ v. (v, refl)))

  -- The outcome of an error reply.
  error_reply :
      (url : Text) (took : Time) (r : Result Text redis.RedisError)
      → IsError redis r
      → (e : HealthCheckError) × (Redis.judge rt redis
            (Redis.new url (from_secs 5) 500)
            took
            (ok (ok r))
          ≡ err e)
  unfolding Redis.judge
  error_reply url took (ok reply) is = absurd is
  error_reply url took (err e) is = (_, refl)

  error_reply-Passes :
      Passes (error_reply_folds_into_unhealthy_readiness rt features redis sockets now)
  unfolding error_reply_folds_into_unhealthy_readiness new Redis.new Redis.register add_check
      fold_outcome aggregate
  error_reply-Passes =
      let (t, url, served, answers) = sockets.error_string (codes "ERR boom") now (omega arith) in
      let check = Redis.new url (from_secs 5) 500 in
      let (u, r, after, soon, is, ran) =
        check-Answers rt redis check t (IsError redis) (up t) answers (omega arith) (omega arith) in
      let (e, failed) = error_reply url (u - t) r is in
      let error_ran : Redis.check rt redis check t ≡ done u (err e) = ran ∙ rw failed refl in
      Passes-continue _ _ served (
        readiness-continue rt features (codes "cache") (Redis.check rt redis check) _ (up t)
          error_ran (omega arith) (λ v. (v, refl)))

  refused-Passes :
      Passes (connection_refused_folds_into_unhealthy_readiness rt features redis sockets now)
  unfolding connection_refused_folds_into_unhealthy_readiness new Redis.new Redis.register add_check
      fold_outcome aggregate ping
  refused-Passes =
      let (t, url, served, refuses) = sockets.refusal now in
      let (u, client, v, e, opened, refused, soon) = refuses t in
      let check = Redis.new url (from_secs 5) 500 in
      let ran = check-error rt redis check t v e (up t) (rw (opened, refused) refl) (omega arith) in
      Passes-continue _ _ served (
        readiness-continue rt features (codes "cache") (Redis.check rt redis check) _ (up t) ran
          (omega arith) (λ v. (v, refl)))

module _ (rt : Runtime) (features : Features) (db : Database) (sqlite : Sqlite db) where
  -- The tests of the registered database check, in the order of the file.
  abbrev pub sqlx_readiness_tests : List (Async (Unit {0}))
  sqlx_readiness_tests =
      registered_check_flows_through_readiness rt features db sqlite
      ∷ failed_probe_folds_into_unhealthy_readiness rt features db sqlite
      ∷ probe_over_threshold_reports_degraded_readiness rt features db sqlite
      ∷ []

  -- On each runtime that takes blocking tasks, with a pool as the unit tests take it to be, each
  -- test ends and no assertion of it fails.
  pub sqlx_readiness_tests-Passes :
      (now : Time)
      → ((t : Time) → rt.accepts t ≡ true)
      → All (λ test. Passes (test now)) sqlx_readiness_tests
  sqlx_readiness_tests-Passes now up =
      registered-Passes rt features db sqlite now up
      & failed-Passes rt features db sqlite now up
      & over_threshold-Passes rt features db sqlite now up
      & tt

module _ (rt : Runtime) (features : Features) (redis : RedisClient) (sockets : Sockets redis) where
  -- The tests of the registered redis check, in the order of the file.
  abbrev pub redis_readiness_tests : List (Async (Unit {0}))
  redis_readiness_tests =
      healthy_ping_flows_through_readiness rt features redis sockets
      ∷ error_reply_folds_into_unhealthy_readiness rt features redis sockets
      ∷ connection_refused_folds_into_unhealthy_readiness rt features redis sockets
      ∷ []

  -- On each runtime that takes blocking tasks, with servers as the unit tests take them to be, each
  -- test ends and no assertion of it fails.
  pub redis_readiness_tests-Passes :
      (now : Time)
      → ((t : Time) → rt.accepts t ≡ true)
      → All (λ test. Passes (test now)) redis_readiness_tests
  redis_readiness_tests-Passes now up =
      ping-Passes rt features redis sockets now up
      & error_reply-Passes rt features redis sockets now up
      & refused-Passes rt features redis sockets now up
      & tt
