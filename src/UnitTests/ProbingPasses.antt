-- ===== src/UnitTests/ProbingPasses.antt =====
-- src/axum.rs, the unit tests of the routes: that they pass.
use healthkit.Base.{
  ◌≡◌, refl, inr, codes, Text, true, List, [], ◌∷◌, ok, All, if◌then◌else◌, arith, flat_map,
}
use healthkit.Async.{Time, Async, done, pure}
use healthkit.Async.Runtime.{Runtime, latest}
use healthkit.Types.{HealthStatus, healthy, degraded, unhealthy}
use healthkit.Registry.{
  HealthRegistry, Store, Features, add_check, add_check_to_group, members, fold_outcome, new,
  aggregate, checks_of, emit_facade_metrics, text_eq,
}
use healthkit.Registry.Latest.{
  check_readiness-latest, check_group-latest, AllInTime, conclusions, Outcomes,
}
use healthkit.Routes.{
  liveness_route, ReadinessConfig, default_config, fail_degraded, ping_route, readiness_route,
  readiness_route_with, startup_route_for_group, readiness_handler, startup_handler,
  readiness_response, startup_response, readiness_status_code, aggregate_status,
}
use healthkit.UnitTests.Harness.{blocking-done, Passes, Passes-continue, ◌&◌, made, empty}
use healthkit.UnitTests.Probing.{
  Dispatch, registry_with, add_outcomes, ping_route_returns_constant_ok_body,
  head_requests_fall_back_to_get_handlers, readiness_degraded_stays_200_by_default,
  readiness_degraded_is_503_when_strict, readiness_unhealthy_is_503,
  startup_route_for_group_runs_only_that_group, startup_route_for_group_still_reports_failures,
  startup_route_for_unknown_group_is_200,
}

module _ (rt : Runtime) (features : Features) (axum : Dispatch) (now : Time) where
  -- What `/readyz` answers if each check completes in time.
  readiness_answers :
      (config : ReadinessConfig) (s : Store) (r : HealthRegistry) (os : Outcomes)
      → AllInTime r.default_timeout now (checks_of s r) os
      → axum.oneshot (readiness_route_with rt features r config) (codes "/readyz") s now
        ≡ done (latest now os) (
          readiness_response config (
              ok (
                aggregate (conclusions now (checks_of s r) os),
                conclusions now (checks_of s r) os,
              )),
          if features.metrics
              then flat_map emit_facade_metrics (conclusions now (checks_of s r) os)
              else [],
        )
  unfolding readiness_route_with readiness_handler
  readiness_answers config s r os h =
      rw (axum.oneshot_get (codes "/readyz") _, check_readiness-latest rt now features s r os h)

  -- What `/startupz` answers if each check of the group completes in time.
  startup_answers :
      (group : Text) (s : Store) (r : HealthRegistry) (os : Outcomes)
      → AllInTime r.default_timeout now (members group (checks_of s r)) os
      → axum.oneshot (startup_route_for_group rt features r group) (codes "/startupz") s now
        ≡ done (latest now os) (
          startup_response (aggregate_status (conclusions now (members group (checks_of s r)) os)),
          [],
        )
  unfolding startup_route_for_group startup_handler
  startup_answers group s r os h =
      rw (axum.oneshot_get (codes "/startupz") _, check_group-latest rt now s r group os h)

  module _ (up : (t : Time) → rt.accepts t ≡ true) where
    registry_with-done :
        (outcomes : List (Text × HealthStatus))
        → registry_with rt features axum outcomes [] now
          ≡ done now (made, add_outcomes made outcomes empty)
    unfolding registry_with new
    registry_with-done outcomes =
        rw (blocking-done rt (add_outcomes made outcomes) empty now (up now))

    degraded_stays_200-Passes :
        Passes (readiness_degraded_stays_200_by_default rt features axum now)
    unfolding readiness_degraded_stays_200_by_default readiness_route add_outcomes fold_outcome
        aggregate readiness_response readiness_status_code default_config
    degraded_stays_200-Passes =
        Passes-continue _ _ (registry_with-done ((codes "db", degraded) ∷ [])) (
          Passes-continue _ _
            (readiness_answers default_config
              (add_outcomes made ((codes "db", degraded) ∷ []) empty) made ((_, ok degraded) ∷ [])
              (refl, inr (omega arith), tt))
            (_, refl))

    degraded_strict-Passes : Passes (readiness_degraded_is_503_when_strict rt features axum now)
    unfolding readiness_degraded_is_503_when_strict add_outcomes fold_outcome aggregate
        readiness_response readiness_status_code default_config fail_degraded
    degraded_strict-Passes =
        Passes-continue _ _ (registry_with-done ((codes "db", degraded) ∷ [])) (
          Passes-continue _ _
            (readiness_answers (fail_degraded default_config)
              (add_outcomes made ((codes "db", degraded) ∷ []) empty) made ((_, ok degraded) ∷ [])
              (refl, inr (omega arith), tt))
            (_, refl))

    readiness_unhealthy-Passes : Passes (readiness_unhealthy_is_503 rt features axum now)
    unfolding readiness_unhealthy_is_503 readiness_route add_outcomes fold_outcome aggregate
        readiness_response readiness_status_code default_config
    readiness_unhealthy-Passes =
        Passes-continue _ _ (registry_with-done ((codes "db", unhealthy) ∷ [])) (
          Passes-continue _ _
            (readiness_answers default_config
              (add_outcomes made ((codes "db", unhealthy) ∷ []) empty) made ((_, ok unhealthy) ∷ [])
              (refl, inr (omega arith), tt))
            (_, refl))

    startup_only_group-Passes :
        Passes (startup_route_for_group_runs_only_that_group rt features axum now)
    unfolding startup_route_for_group_runs_only_that_group new add_check add_check_to_group members
        fold_outcome text_eq aggregate_status startup_response
    startup_only_group-Passes =
        let register : Store → Store = (λ s.
          add_check_to_group made (codes "init") (codes "migrations") (pure (ok healthy))
            (add_check made (codes "database") (pure (ok unhealthy)) s)) in
        Passes-continue _ _ (blocking-done rt register empty now (up now)) (
          Passes-continue _ _
            (startup_answers (codes "init") (register empty) made ((_, ok healthy) ∷ [])
              (refl, inr (omega arith), tt))
            (_, refl))

    startup_failures-Passes :
        Passes (startup_route_for_group_still_reports_failures rt features axum now)
    unfolding startup_route_for_group_still_reports_failures new add_check_to_group members
        fold_outcome text_eq aggregate_status startup_response
    startup_failures-Passes =
        let register =
          add_check_to_group made (codes "init") (codes "migrations") (pure (ok unhealthy)) in
        Passes-continue _ _ (blocking-done rt register empty now (up now)) (
          Passes-continue _ _
            (startup_answers (codes "init") (register empty) made ((_, ok unhealthy) ∷ [])
              (refl, inr (omega arith), tt))
            (_, refl))

    startup_unknown-Passes : Passes (startup_route_for_unknown_group_is_200 rt features axum now)
    unfolding startup_route_for_unknown_group_is_200 add_outcomes members fold_outcome text_eq
        aggregate_status startup_response
    startup_unknown-Passes =
        Passes-continue _ _ (registry_with-done ((codes "db", unhealthy) ∷ [])) (
          Passes-continue _ _
            (startup_answers (codes "nope") (add_outcomes made ((codes "db", unhealthy) ∷ []) empty)
              made [] tt)
            (_, refl))

ping-Passes : (axum : Dispatch) (now : Time) → Passes (ping_route_returns_constant_ok_body axum now)
unfolding ping_route_returns_constant_ok_body ping_route text_eq
ping-Passes axum now = rw (axum.oneshot_of_get ping_route) (now, refl)

head-Passes :
    (axum : Dispatch) (now : Time) → Passes (head_requests_fall_back_to_get_handlers axum now)
unfolding head_requests_fall_back_to_get_handlers liveness_route
head-Passes axum now =
    Passes-continue _ _ (axum.oneshot_head_done liveness_route now now _ refl) (now, refl)

module _ (rt : Runtime) (features : Features) (axum : Dispatch) where
  -- The tests, in the order of the file.
  abbrev pub axum_tests : List (Async (Unit {0}))
  axum_tests =
      ping_route_returns_constant_ok_body axum
      ∷ head_requests_fall_back_to_get_handlers axum
      ∷ readiness_degraded_stays_200_by_default rt features axum
      ∷ readiness_degraded_is_503_when_strict rt features axum
      ∷ readiness_unhealthy_is_503 rt features axum
      ∷ startup_route_for_group_runs_only_that_group rt features axum
      ∷ startup_route_for_group_still_reports_failures rt features axum
      ∷ startup_route_for_unknown_group_is_200 rt features axum
      ∷ []

  -- On each runtime that takes blocking tasks, and with a router that answers a GET request by the
  -- handler of its path, and a HEAD request so without the body, each unit test of the routes ends,
  -- whenever it is started, and no assertion of it fails.
  pub axum_tests-Passes :
      (now : Time) → ((t : Time) → rt.accepts t ≡ true) → All (λ test. Passes (test now)) axum_tests
  axum_tests-Passes now up =
      ping-Passes axum now
      & head-Passes axum now
      & degraded_stays_200-Passes rt features axum now up
      & degraded_strict-Passes rt features axum now up
      & readiness_unhealthy-Passes rt features axum now up
      & startup_only_group-Passes rt features axum now up
      & startup_failures-Passes rt features axum now up
      & startup_unknown-Passes rt features axum now up
      & tt
