-- ===== src/UnitTests/Probing.antt =====
-- src/axum.rs, the unit tests of the routes.
use healthkit.Base.{◌≡◌, codes, Text, Bool, true, false, List, [], ◌∷◌, ok}
use healthkit.Async.{Time, Async, done, pure, ◌>>=◌}
use healthkit.Async.Runtime.{Runtime}
use healthkit.Types.{HealthStatus, healthy, degraded, unhealthy}
use healthkit.Registry.{
  HealthRegistry, Store, Features, add_check, add_check_to_group, new, text_eq,
}
use healthkit.Routes.{
  StatusCode, Body, plain, empty, Response, Handler, Router, liveness_route, default_config,
  fail_degraded, ping_route, readiness_route, readiness_route_with, startup_route_for_group,
}
use healthkit.UnitTests.Harness.{◌>>◌, assert, blocking, is_empty}

-- `axum::Router` and `MethodRouter` as the tests use them: a GET request to the path of the only
-- route is answered by its handler, and a HEAD request too, "but will have the response body removed".
pub record Dispatch : Type 0 where
  -- `router.oneshot(Request::get(path)…)`
  pub oneshot : Router → Text → Handler
  pub oneshot_get :
      (path : Text) (get : Handler) → oneshot (record { path = path; get = get } ∷ []) path ≡ get
  -- `get(handler).oneshot(Request::get(…)…)`
  pub oneshot_of : Async Response → Async Response
  pub oneshot_of_get : (get : Async Response) → oneshot_of get ≡ get
  -- `get(handler).oneshot(…method("HEAD")…)`
  pub oneshot_head : Async Response → Async Response
  pub oneshot_head_done :
      (get : Async Response) (now t : Time) (response : Response)
      → get now ≡ done t response
      → oneshot_head get now ≡ done t (record response { body = empty })

abbrev pub code_eq : StatusCode → StatusCode → Bool
code_eq StatusCode.ok StatusCode.ok = true
code_eq StatusCode.service_unavailable StatusCode.service_unavailable = true
code_eq StatusCode.internal_server_error StatusCode.internal_server_error = true
code_eq _ _ = false

abbrev pub body_is : Body → Text → Bool
unfolding text_eq
body_is (plain text) expected = text_eq text expected
body_is _ expected = false

abbrev pub body_is_empty : Body → Bool
body_is_empty (plain text) = is_empty text
body_is_empty empty = true
body_is_empty _ = false

-- The loop of `registry_with`.
unfoldable pub add_outcomes : HealthRegistry → List (Text × HealthStatus) → Store → Store
unfolding add_check
add_outcomes r [] s = s
add_outcomes r ((name, status) ∷ outcomes) s =
    add_outcomes r outcomes (add_check r name (pure (ok status)) s)

unfoldable pub ping_route_returns_constant_ok_body : Dispatch → Async (Unit {0})
unfolding ping_route text_eq
ping_route_returns_constant_ok_body axum = do
  res ← axum.oneshot_of ping_route
  assert (code_eq res.status StatusCode.ok)
  assert (body_is res.body (codes "OK"))

unfoldable pub head_requests_fall_back_to_get_handlers : Dispatch → Async (Unit {0})
unfolding liveness_route
head_requests_fall_back_to_get_handlers axum = do
  res ← axum.oneshot_head liveness_route
  assert (code_eq res.status StatusCode.ok)
  assert (body_is_empty res.body)

module _ (rt : Runtime) (features : Features) (axum : Dispatch) where
  unfoldable pub registry_with : List (Text × HealthStatus) → Store → Async (HealthRegistry × Store)
  unfolding new add_outcomes blocking
  registry_with outcomes s = do
    let (registry, s) = new s
    s ← blocking rt (add_outcomes registry outcomes) s
    pure (registry, s)

  unfoldable pub readiness_degraded_stays_200_by_default : Async (Unit {0})
  unfolding registry_with readiness_route
  readiness_degraded_stays_200_by_default = do
    (registry, s) ← registry_with ((codes "db", degraded) ∷ []) []
    (res, emitted) ← axum.oneshot (readiness_route rt features registry) (codes "/readyz") s
    assert (code_eq res.status StatusCode.ok)

  unfoldable pub readiness_degraded_is_503_when_strict : Async (Unit {0})
  unfolding registry_with readiness_route_with default_config fail_degraded
  readiness_degraded_is_503_when_strict = do
    (registry, s) ← registry_with ((codes "db", degraded) ∷ []) []
    (res, emitted) ←
        axum.oneshot (readiness_route_with rt features registry (fail_degraded default_config))
          (codes "/readyz") s
    assert (code_eq res.status StatusCode.service_unavailable)

  unfoldable pub readiness_unhealthy_is_503 : Async (Unit {0})
  unfolding registry_with readiness_route
  readiness_unhealthy_is_503 = do
    (registry, s) ← registry_with ((codes "db", unhealthy) ∷ []) []
    (res, emitted) ← axum.oneshot (readiness_route rt features registry) (codes "/readyz") s
    assert (code_eq res.status StatusCode.service_unavailable)

  unfoldable pub startup_route_for_group_runs_only_that_group : Async (Unit {0})
  unfolding new add_check add_check_to_group blocking startup_route_for_group
  startup_route_for_group_runs_only_that_group = do
    let (registry, s) = new []
    s ←
        blocking rt
          (λ s.
            add_check_to_group registry (codes "init") (codes "migrations") (pure (ok healthy))
              (add_check registry (codes "database") (pure (ok unhealthy)) s))
          s
    (res, emitted) ←
        axum.oneshot (startup_route_for_group rt features registry (codes "init"))
          (codes "/startupz") s
    assert (code_eq res.status StatusCode.ok)

  unfoldable pub startup_route_for_group_still_reports_failures : Async (Unit {0})
  unfolding new add_check_to_group blocking startup_route_for_group
  startup_route_for_group_still_reports_failures = do
    let (registry, s) = new []
    s ←
        blocking rt
          (add_check_to_group registry (codes "init") (codes "migrations") (pure (ok unhealthy))) s
    (res, emitted) ←
        axum.oneshot (startup_route_for_group rt features registry (codes "init"))
          (codes "/startupz") s
    assert (code_eq res.status StatusCode.service_unavailable)

  unfoldable pub startup_route_for_unknown_group_is_200 : Async (Unit {0})
  unfolding registry_with startup_route_for_group
  startup_route_for_unknown_group_is_200 = do
    (registry, s) ← registry_with ((codes "db", unhealthy) ∷ []) []
    (res, emitted) ←
        axum.oneshot (startup_route_for_group rt features registry (codes "nope"))
          (codes "/startupz") s
    assert (code_eq res.status StatusCode.ok)
