-- ===== src/UnitTests/Documented.antt =====
-- src/lib.rs and src/metrics.rs, the examples in their documentation.
use healthkit.Base.{
  ◌≡◌, refl, ◌∙◌, Option, inr, true, codes, Text, List, [], ◌∷◌, ◌++◌, none, some, ok, ◌&&◌, arith,
}
use healthkit.Async.{Time, Outcome, Async, done, pure}
use healthkit.Async.Runtime.{Runtime}
use healthkit.Duration.{decimal}
use healthkit.Types.{healthy, CheckResult}
use healthkit.Registry.{
  Store, Features, Emission, add_check, add_check_to_group, members, fold_outcome, new, check_all,
  text_eq,
}
use healthkit.Registry.Latest.{check_all-latest}
use healthkit.Routes.Startup.{startup_handler-Passes}
use healthkit.Routes.{
  StatusCode, Response, Router, Handler, liveness_route, readiness_route, startup_route,
  startup_route_for_group, startup_handler,
}
use healthkit.Metrics.{render_prometheus}
use healthkit.Metrics.Exact.{exact}
use healthkit.Service.Routing.{handler_of}
use healthkit.UnitTests.Harness.{made, empty}
use healthkit.UnitTests.Expositions.{result, starts_with, ends_with}

done_at :
    {t now d : Time} {message : Option Text} {emitted : List Emission} {name : Text}
    → t ≡ now
    → d ≡ 0
    → ◌≡◌ {A = Outcome (List CheckResult × List Emission)}
        (done t
          (record { name = name; status = healthy; message = message; duration = d } ∷ [], emitted))
        (done now
          (record { name = name; status = healthy; message = message; duration = 0 } ∷ [], emitted))
done_at p q = rw (p, q) refl

module _ (rt : Runtime) (features : Features) where
  quick_start : Async (List CheckResult × List Emission)
  unfolding new add_check check_all
  quick_start = do
    let (registry, s) = new []
    let s = add_check registry (codes "database") (pure (ok healthy)) s
    check_all rt features s registry

  -- The store of the example beside its routes.
  groups_example : Store × Router
  unfolding new add_check add_check_to_group startup_route_for_group
  groups_example =
      let (registry, s) = new [] in
      let s = add_check registry (codes "database") (pure (ok healthy)) s in
      let s =
        add_check_to_group registry (codes "init") (codes "migrations") (pure (ok healthy)) s in
      (s, startup_route_for_group rt features registry (codes "init"))

  axum_example : Async Response × Router
  unfolding new liveness_route readiness_route startup_route
  axum_example =
      let (registry, s) = new [] in
      (liveness_route, readiness_route rt features registry ++ startup_route rt features registry)

  -- The quick start finds its check healthy, at once.
  quick_start_lem :
      (now : Time)
      → (emitted : List Emission) × (quick_start now
          ≡ done now (
            record { name = codes "database"; status = healthy; message = none; duration = 0 } ∷ [],
            emitted,
          ))
  unfolding quick_start new add_check fold_outcome
  quick_start_lem now =
      let ran =
        check_all-latest rt now features
          (add_check made (codes "database") (pure (ok healthy)) empty) made
          ((now, ok healthy) ∷ []) (refl, inr (omega arith), tt) in
      (_, ran ∙ done_at (omega arith) (omega arith))

  -- The startup route of the example answers 200, from the check of its group.
  groups_example_lem :
      (now : Time)
      → (handler : Handler) × (t : Time) × (response : Response) × (handler_of
            (codes "/startupz")
            groups_example.1
          ≡ some handler)
        × (handler groups_example.0 now ≡ done t (response, []))
        × (response.status ≡ StatusCode.ok)
  unfolding groups_example new add_check add_check_to_group members text_eq
  groups_example_lem now =
      let (t, response, ran, code, either, soon) =
        startup_handler-Passes rt features made (codes "init") groups_example.0 now (tt, tt) in
      (
        startup_handler rt features (record { registry = made; group = some (codes "init") }),
        t,
        response,
        refl,
        ran,
        code.1 ((now, healthy, refl, inr (omega arith), refl), tt),
      )

-- What the documentation shows of the exposition, before and after its dots.
abbrev documented_head : Text
documented_head =
    codes
      "# HELP healthkit_check_healthiness Health status of the check (1 = healthy, 0.5 = degraded, 0 = unhealthy).\n# TYPE healthkit_check_healthiness gauge\nhealthkit_check_healthiness{check=\"db\"} 1\n# HELP healthkit_check_duration_seconds Duration of the check execution in seconds.\n# TYPE healthkit_check_duration_seconds histogram\nhealthkit_check_duration_seconds_bucket{check=\"db\",le=\"0.005\"} 1\nhealthkit_check_duration_seconds_bucket{check=\"db\",le=\"0.01\"} 1\n"

abbrev documented_tail : Text
documented_tail =
    codes
      "healthkit_check_duration_seconds_bucket{check=\"db\",le=\"+Inf\"} 1\nhealthkit_check_duration_seconds_sum{check=\"db\"} 0.003\nhealthkit_check_duration_seconds_count{check=\"db\"} 1\n"

-- The rendering is as documented.
documented_exposition :
    let out = render_prometheus exact (result (codes "db") healthy 3 ∷ []) in
    (starts_with documented_head out && ends_with documented_tail out) ≡ true
unfolding render_prometheus result starts_with ends_with decimal
documented_exposition = refl
