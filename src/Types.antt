-- ===== src/Types.antt =====
-- src/types.rs: the status of a check, the result of a check, and the response bodies.
use healthkit.Base.{Bool, true, false, Option, List, Text, codes}
use healthkit.Duration.{Duration}

pub data HealthStatus : Type 0 where
  healthy degraded unhealthy : HealthStatus

unfoldable pub is_healthy : HealthStatus → Bool
is_healthy healthy = true
is_healthy _ = false

unfoldable pub is_ready : HealthStatus → Bool
is_ready healthy = true
is_ready degraded = true
is_ready unhealthy = false

-- `impl Display for HealthStatus`
unfoldable pub status_text : HealthStatus → Text
status_text healthy = codes "healthy"
status_text degraded = codes "degraded"
status_text unhealthy = codes "unhealthy"

pub record CheckResult : Type 0 where
  pub name : Text
  pub status : HealthStatus
  pub message : Option Text
  pub duration : Duration

pub record HealthResponse : Type 0 where
  pub status : HealthStatus

pub record ReadinessResponse : Type 0 where
  pub status : HealthStatus
  pub checks : List CheckResult

pub record LivenessResponse : Type 0 where
  pub status : HealthStatus

pub HealthStatus-discrete : Discrete HealthStatus
HealthStatus-discrete = hlevel
