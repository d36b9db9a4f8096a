-- ===== src/Examples/Probes.antt =====
-- src/axum.rs: the handlers over the registry of the examples.
use healthkit.Base.{
  ◌+◌, ◌≡◌, refl, ◌↔◌, ◌⊎◌, inl, inr, codes, List, [], ◌∷◌, flat_map, none, some, All, arith,
  if◌then◌else◌,
}
use healthkit.Async.{Time, done, panicked}
use healthkit.Duration.{from_secs}
use healthkit.Types.{HealthStatus, CheckResult, healthy, unhealthy}
use healthkit.Registry.{
  checks_of, aggregate, emit_facade_metrics, add_check_inner, members, check_all, Emission,
  RegisteredCheck,
}
use healthkit.Registry.Reports.{EndsBy}
use healthkit.Registry.Sweeps.{AllReport}
use healthkit.Routes.{
  StatusCode, service_unavailable, json_readiness, json_health, Response, HealthState,
  default_config, fail_degraded, readiness_handler, startup_handler,
}
use healthkit.Routes.Readiness.{Accepted, readiness_handler-Accepted, readiness_handler-panicked}
use healthkit.Routes.Reordered.{readiness_handler-Within}
use healthkit.Registry.Grouped.{GroupReports}
use healthkit.Examples.Sweeps.{init_answers}
use healthkit.Routes.Startup.{startup_handler-group}
use healthkit.Examples.Fixtures.{
  rt, with_metrics, store, registry, fragile, db, cache, hanging, migrations,
}

abbrev strict : HealthState
strict = record { registry = registry; config = fail_degraded default_config }

readiness_handler-Accepted_example :
    (t : Time) × (results : List CheckResult) × (response : Response) × (readiness_handler rt
        with_metrics strict store 7
      ≡ done t
          (response, if with_metrics.metrics then flat_map emit_facade_metrics results else []))
    × AllReport rt.lag registry.default_timeout 7 (checks_of store registry) results
    × (response.body ≡ json_readiness (record { status = aggregate results; checks = results }))
    × ((response.status ≡ StatusCode.ok) ↔ All (λ r. Accepted strict.config r.status) results)
    × ((response.status ≡ StatusCode.ok) ⊎ (response.status ≡ service_unavailable))
    × EndsBy (7 + registry.default_timeout + rt.lag) registry.default_timeout t
readiness_handler-Accepted_example =
    readiness_handler-Accepted rt with_metrics strict store 7 (omega arith)

abbrev fragile_state : HealthState
fragile_state = record { registry = fragile; config = default_config }

fragile_readiness :
    (t : Time) × (readiness_handler rt with_metrics fragile_state store 7 ≡ panicked t)
fragile_readiness =
    readiness_handler-panicked rt with_metrics fragile_state store 7
      (inr (inl (7, refl, inr (omega arith))))

startup_handler-group_example :
    (t : Time) × (results : List CheckResult) × (response : Response) × (startup_handler rt
        with_metrics
        (record { registry = registry; group = some (codes "init") })
        store
        7
      ≡ done t (response, []))
    × GroupReports
        (codes "init")
        rt.lag
        registry.default_timeout
        7
        (checks_of store registry)
        results
    × (response.body ≡ json_health (record { status = aggregate results }))
    × ((response.status ≡ StatusCode.ok) ↔ All (λ r. r.status ≡ healthy) results)
    × ((response.status ≡ StatusCode.ok) ⊎ (response.status ≡ service_unavailable))
    × EndsBy (7 + registry.default_timeout + rt.lag) registry.default_timeout t
startup_handler-group_example =
    startup_handler-group rt with_metrics registry (codes "init") store 7 init_answers

-- A degraded check of the group fails the startup probe.
startup_degraded :
    startup_handler rt with_metrics
      (record { registry = registry; group = some (codes "init") })
      store
      7
    ≡ done 7 (
      record {
        status = service_unavailable;
        headers = [];
        body = json_health (record { status = healthkit.Types.degraded });
      },
      [],
    )
unfolding startup_handler healthkit.Registry.check_group
startup_degraded = refl

-- The checks of the registry in another order, one of them twice, under other names.
abbrev shuffled_checks : List RegisteredCheck
shuffled_checks =
    record { name = codes "late"; group = some (codes "slow"); check_fn = hanging.check_fn }
    ∷ migrations
    ∷ record { name = codes "primary"; group = none; check_fn = db.check_fn }
    ∷ record { name = codes "replica"; group = none; check_fn = db.check_fn }
    ∷ cache
    ∷ []

abbrev shuffled : HealthState
shuffled = record {
  registry = record { checks = 0; default_timeout = from_secs 2 };
  config = fail_degraded default_config;
}

readiness_handler-Within_example :
    (t : Time) × (t' : Time) × (response : Response) × (response' : Response) × (emitted : List
      Emission)
    × (emitted' : List Emission) × (results : List CheckResult) × (results' : List CheckResult)
    × (overall : HealthStatus) × (readiness_handler rt with_metrics strict store 7
        ≡ done t (response, emitted))
    × (readiness_handler rt with_metrics shuffled (shuffled_checks ∷ []) 7
        ≡ done t' (response', emitted'))
    × (response.status ≡ response'.status)
    × (response.body ≡ json_readiness (record { status = overall; checks = results }))
    × (response'.body ≡ json_readiness (record { status = overall; checks = results' }))
readiness_handler-Within_example =
    readiness_handler-Within rt with_metrics strict shuffled store (shuffled_checks ∷ []) 7 refl
      refl
      (inr (inr (inl refl)), (inr (inr (inr (inr (inl refl)))), (inl refl, (inr (inl refl), tt))))
      (
        inr (inr (inl refl)),
        (inr (inr (inr (inl refl))), (inl refl, (inl refl, (inr (inl refl), tt)))),
      )
      (omega arith) (omega arith)
