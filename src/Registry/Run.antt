-- ===== src/Registry/Run.antt =====
-- src/registry.rs: `run_one`, the run of a single check under its deadline.
use healthkit.Base.{Text, Option, none, some, Result, ok, err, if◌then◌else◌}
use healthkit.Async.{Async, pure, ◌>>=◌, instant_now, elapsed}
use healthkit.Async.Runtime.{Runtime, Elapsed}
use healthkit.Duration.{Duration, is_zero}
use healthkit.Types.{HealthStatus, unhealthy, CheckResult}
use healthkit.Errors.{HealthCheckError, check_timed_out, error_text}
use healthkit.Registry.Register.{RegisteredCheck}

-- `Err(_) => Err(CheckTimedOut(deadline))`
unfoldable pub settle :
    Duration
    → Result (Result HealthStatus HealthCheckError) Elapsed
    → Result HealthStatus HealthCheckError
settle deadline (ok outcome) = outcome
settle deadline (err e) = err (check_timed_out deadline)

-- The status and the message of a result.
unfoldable pub fold_outcome : Result HealthStatus HealthCheckError → HealthStatus × Option Text
fold_outcome (ok status) = (status, none)
fold_outcome (err e) = (unhealthy, some (error_text e))

unfoldable pub run_one : Runtime → Duration → RegisteredCheck → Async CheckResult
unfolding settle fold_outcome is_zero
run_one rt deadline check = do
  start ← instant_now
  outcome ←
      if is_zero deadline
      then check.check_fn
      else (do r ← rt.timeout deadline check.check_fn; pure (settle deadline r))
  duration ← elapsed start
  let (status, message) = fold_outcome outcome
  pure (record { name = check.name; status = status; message = message; duration = duration })
