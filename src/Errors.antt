-- ===== src/Errors.antt =====
-- src/error.rs: why a check failed, and the text of each error.
pub mod RoundTrip
use healthkit.Base.{Text, codes, ◌++◌}
use healthkit.Duration.{Duration, debug}

pub data HealthCheckError : Type 0 where
  check_failed : Text → HealthCheckError
  check_panicked : Text → HealthCheckError
  check_timed_out : Duration → HealthCheckError
  dependency_unavailable : Text → HealthCheckError
  shutting_down : HealthCheckError

-- `#[error("…")]`: the Display form.
unfoldable pub error_text : HealthCheckError → Text
error_text (check_failed m) = codes "health check failed: " ++ m
error_text (check_panicked m) = codes "health check panicked: " ++ m
error_text (check_timed_out d) = codes "health check timed out after " ++ debug d
error_text (dependency_unavailable m) = codes "dependency unavailable: " ++ m
error_text shutting_down = codes "service is shutting down"
