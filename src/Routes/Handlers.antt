-- ===== src/Routes/Handlers.antt =====
-- src/axum.rs: configuration, state, handlers and routes.
use healthkit.Base.{
  Bool, true, false, not, ◌&&◌, ◌||◌, Text, codes, List, [], ◌∷◌, map, Option, none, some, Result,
  if◌then◌else◌,
}
use healthkit.Async.{Async, pure, ◌>>=◌}
use healthkit.Async.Runtime.{Runtime}
use healthkit.Types.{
  HealthStatus, healthy, degraded, is_healthy, CheckResult, HealthResponse, ReadinessResponse,
  LivenessResponse,
}
use healthkit.Errors.{HealthCheckError}
use healthkit.Registry.{
  HealthRegistry, Store, Features, Emission, severity, max_by_key, check_all, check_group,
  check_readiness,
}

-- The constants of `axum::http::StatusCode` that the handlers use.
pub data StatusCode : Type 0 where
  ok service_unavailable internal_server_error : StatusCode

pub data Body : Type 0 where
  json_liveness : LivenessResponse → Body
  json_readiness : ReadinessResponse → Body
  json_health : HealthResponse → Body
  plain : Text → Body
  empty : Body

pub record Response : Type 0 where
  pub status : StatusCode
  pub headers : List (Text × Text)
  pub body : Body

pub record ReadinessConfig : Type 0 where
  pub degraded_fails_readiness : Bool

-- `ReadinessConfig::new` and `default`
unfoldable pub default_config : ReadinessConfig
default_config = record { degraded_fails_readiness = false }

-- The builder `ReadinessConfig::degraded_fails_readiness`.
unfoldable pub fail_degraded : ReadinessConfig → ReadinessConfig
fail_degraded config = record config { degraded_fails_readiness = true }

pub record HealthState : Type 0 where
  pub registry : HealthRegistry
  pub config : ReadinessConfig

pub record StartupState : Type 0 where
  pub registry : HealthRegistry
  pub group : Option Text

unfoldable pub liveness_handler : Async Response
liveness_handler = pure (record {
  status = StatusCode.ok;
  headers = [];
  body = json_liveness (record { status = healthy });
})

unfoldable pub ping_handler : Async Response
ping_handler = pure (record {
  status = StatusCode.ok;
  headers = (codes "content-type", codes "text/plain; charset=utf-8") ∷ [];
  body = plain (codes "OK");
})

-- `status == HealthStatus::Degraded`
is_degraded : HealthStatus → Bool
is_degraded degraded = true
is_degraded _ = false

unfoldable pub readiness_status_code : HealthStatus → ReadinessConfig → StatusCode
unfolding is_degraded is_healthy
readiness_status_code status config =
    let degraded_ok = is_degraded status && not config.degraded_fails_readiness in
    if is_healthy status || degraded_ok then StatusCode.ok else service_unavailable

abbrev or_healthy : Option HealthStatus → HealthStatus
or_healthy none = healthy
or_healthy (some s) = s

unfoldable pub aggregate_status : List CheckResult → HealthStatus
unfolding max_by_key severity
aggregate_status results = or_healthy (max_by_key severity (map (λ r. r.status) results))

-- The arms of the match on what `check_readiness` returned.
unfoldable pub readiness_response :
    ReadinessConfig → Result (HealthStatus × List CheckResult) HealthCheckError → Response
unfolding readiness_status_code
readiness_response config (Result.ok (status, checks)) = record {
  status = readiness_status_code status config;
  headers = [];
  body = json_readiness (record { status = status; checks = checks });
}
readiness_response config (Result.err e) = record {
  status = internal_server_error;
  headers = [];
  body = empty;
}

unfoldable pub startup_response : HealthStatus → Response
unfolding is_healthy
startup_response status =
    let response : HealthResponse = record { status = status } in
    if is_healthy status
    then record { status = StatusCode.ok; headers = []; body = json_health response }
    else record { status = service_unavailable; headers = []; body = json_health response }

-- A handler answers a request with a response, and with what its sweep emitted.
abbrev pub Handler : Type 0
Handler = Store → Async (Response × List Emission)

module _ (rt : Runtime) (features : Features) where
  unfoldable pub readiness_handler : HealthState → Handler
  unfolding readiness_response check_readiness
  readiness_handler state s = do
    (outcome, emitted) ← check_readiness rt features s state.registry
    pure (readiness_response state.config outcome, emitted)

  unfoldable pub detailed_handler : HealthState → Handler
  unfolding readiness_response check_readiness
  detailed_handler state s = do
    (outcome, emitted) ← check_readiness rt features s state.registry
    pure (readiness_response state.config outcome, emitted)

  -- The checks of the group, of which nothing is emitted, or all checks.
  unfoldable pub startup_results :
      StartupState → Option Text → Store → Async (List CheckResult × List Emission)
  unfolding check_group check_all
  startup_results state (some group) s = do
    results ← check_group rt s state.registry group
    pure (results, [])
  startup_results state none s = check_all rt features s state.registry

  unfoldable pub startup_handler : StartupState → Handler
  unfolding startup_results startup_response aggregate_status
  startup_handler state s = do
    (results, emitted) ← startup_results state state.group s
    pure (startup_response (aggregate_status results), emitted)

-- A path, served by GET.
pub record Route : Type 0 where
  pub path : Text
  pub get : Handler

abbrev pub Router : Type 0
Router = List Route

unfoldable pub liveness_route : Async Response
unfolding liveness_handler
liveness_route = liveness_handler

unfoldable pub ping_route : Async Response
unfolding ping_handler
ping_route = ping_handler

module _ (rt : Runtime) (features : Features) where
  unfoldable pub readiness_route_with : HealthRegistry → ReadinessConfig → Router
  unfolding readiness_handler
  readiness_route_with registry config =
      record {
        path = codes "/readyz";
        get = readiness_handler rt features (record { registry = registry; config = config });
      }
      ∷ []

  unfoldable pub readiness_route : HealthRegistry → Router
  unfolding readiness_route_with default_config
  readiness_route registry = readiness_route_with registry default_config

  unfoldable pub startup_route_for_group_inner : HealthRegistry → Option Text → Router
  unfolding startup_handler
  startup_route_for_group_inner registry group =
      record {
        path = codes "/startupz";
        get = startup_handler rt features (record { registry = registry; group = group });
      }
      ∷ []

  unfoldable pub startup_route : HealthRegistry → Router
  unfolding startup_route_for_group_inner
  startup_route registry = startup_route_for_group_inner registry none

  unfoldable pub startup_route_for_group : HealthRegistry → Text → Router
  unfolding startup_route_for_group_inner
  startup_route_for_group registry group = startup_route_for_group_inner registry (some group)

  unfoldable pub detailed_route_with : HealthRegistry → ReadinessConfig → Router
  unfolding detailed_handler
  detailed_route_with registry config =
      record {
        path = codes "/healthz/detailed";
        get = detailed_handler rt features (record { registry = registry; config = config });
      }
      ∷ []

  unfoldable pub detailed_route : HealthRegistry → Router
  unfolding detailed_route_with default_config
  detailed_route registry = detailed_route_with registry default_config
