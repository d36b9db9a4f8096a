-- ===== src/UnitTests/Crate.antt =====
-- src/lib.rs, the unit tests of the statuses, the results and the texts of the errors.
use healthkit.Base.{refl, codes, not, none, some}
use healthkit.Async.{Async}
use healthkit.Duration.{from_secs, from_millis, debug}
use healthkit.Types.{healthy, degraded, unhealthy, is_healthy, is_ready, status_text, CheckResult}
use healthkit.Errors.{
  check_failed, check_panicked, check_timed_out, dependency_unavailable, shutting_down, error_text,
}
use healthkit.Registry.{text_eq}
use healthkit.UnitTests.Harness.{◌>>◌, assert, message_is, is_none, Passes}

health_status_is_healthy : Async (Unit {0})
unfolding is_healthy
health_status_is_healthy = do
  assert (is_healthy healthy)
  assert (not (is_healthy degraded))
  assert (not (is_healthy unhealthy))

health_status_is_ready : Async (Unit {0})
unfolding is_ready
health_status_is_ready = do
  assert (is_ready healthy)
  assert (is_ready degraded)
  assert (not (is_ready unhealthy))

health_status_display : Async (Unit {0})
unfolding status_text text_eq
health_status_display = do
  assert (text_eq (status_text healthy) (codes "healthy"))
  assert (text_eq (status_text degraded) (codes "degraded"))
  assert (text_eq (status_text unhealthy) (codes "unhealthy"))

check_result_creation_and_is_healthy : Async (Unit {0})
unfolding is_healthy text_eq
check_result_creation_and_is_healthy =
    let result : CheckResult = record {
      name = codes "db";
      status = healthy;
      message = none;
      duration = from_millis 5;
    } in
    assert (is_healthy result.status)
    >> assert (text_eq result.name (codes "db"))
    >> assert (is_none result.message)

check_result_unhealthy : Async (Unit {0})
unfolding is_healthy text_eq
check_result_unhealthy =
    let result : CheckResult = record {
      name = codes "redis";
      status = unhealthy;
      message = some (codes "connection refused");
      duration = from_millis 1;
    } in
    assert (not (is_healthy result.status))
    >> assert (message_is result.message (codes "connection refused"))

health_check_error_display : Async (Unit {0})
unfolding error_text debug text_eq
health_check_error_display = do
  assert (
      text_eq (error_text (check_failed (codes "disk full")))
        (codes "health check failed: disk full"))
  assert (
      text_eq (error_text (check_panicked (codes "thread panic")))
        (codes "health check panicked: thread panic"))
  assert (
      text_eq (error_text (check_timed_out (from_secs 5)))
        (codes "health check timed out after 5s"))
  assert (
      text_eq (error_text (dependency_unavailable (codes "postgres")))
        (codes "dependency unavailable: postgres"))
  assert (text_eq (error_text shutting_down) (codes "service is shutting down"))

-- All of them pass.
crate_tests :
    Passes (health_status_is_healthy 0)
    × Passes (health_status_is_ready 0)
    × Passes (health_status_display 0)
    × Passes (check_result_creation_and_is_healthy 0)
    × Passes (check_result_unhealthy 0)
    × Passes (health_check_error_display 0)
unfolding health_status_is_healthy health_status_is_ready health_status_display
    check_result_creation_and_is_healthy check_result_unhealthy health_check_error_display
    is_healthy is_ready status_text text_eq error_text debug
crate_tests = ((0, refl), (0, refl), (0, refl), (0, refl), (0, refl), (0, refl))
