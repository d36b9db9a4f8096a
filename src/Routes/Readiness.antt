-- ===== src/Routes/Readiness.antt =====
-- src/axum.rs, `readiness_handler`: which status code a sweep leads to.
use healthkit.Base.{
  ◌+◌, ◌≡◌, refl, ◌⊎◌, ◌↔◌, List, [], ◌∷◌, All, false, arith, flat_map, ok, if◌then◌else◌,
}
use healthkit.Async.{Time, done, panicked}
use healthkit.Async.Runtime.{Runtime}
use healthkit.Types.{HealthStatus, healthy, degraded, unhealthy, CheckResult}
use healthkit.Registry.{Store, Features, Emission, checks_of, aggregate, emit_facade_metrics}
use healthkit.Registry.Passing.{Passes, AllReport-Passes}
use healthkit.Registry.Worst.{aggregate-eq-worst, worst, worse}
use healthkit.Registry.Reports.{EndsBy}
use healthkit.Registry.Sweeps.{
  AllAnswer, AllReport, AnyUnwinds, check_all-Reports, check_all-panicked,
}
use healthkit.Routes.Handlers.{
  StatusCode, service_unavailable, json_readiness, Response, ReadinessConfig, HealthState,
  readiness_status_code, readiness_response, readiness_handler,
}

-- A status that a pod may have and still get traffic.
abbrev pub Accepted : ReadinessConfig → HealthStatus → Type 0
Accepted config healthy = Unit
Accepted config degraded = config.degraded_fails_readiness ≡ false
Accepted config unhealthy = ⊥

code_Accepted :
    (config : ReadinessConfig) (s : HealthStatus)
    → (readiness_status_code s config ≡ StatusCode.ok) ↔ Accepted config s
unfolding readiness_status_code
code_Accepted config s = ground arith

code_either :
    (config : ReadinessConfig) (s : HealthStatus)
    → (readiness_status_code s config ≡ StatusCode.ok)
      ⊎ (readiness_status_code s config ≡ service_unavailable)
unfolding readiness_status_code
code_either config s = ground arith

-- The worse of two statuses is accepted exactly if both are.
worse-Accepted :
    (config : ReadinessConfig) (a b : HealthStatus)
    → Accepted config (worse a b) ↔ (Accepted config a × Accepted config b)
worse-Accepted config a b = ground arith

worst-Accepted :
    (config : ReadinessConfig) (rs : List CheckResult)
    → Accepted config (worst rs) ↔ All (λ r. Accepted config r.status) rs
worst-Accepted config [] = (λ a. tt, λ h. tt)
worst-Accepted config (r ∷ rs) =
    let (to, from) = worst-Accepted config rs in
    let (split, join) = worse-Accepted config r.status (worst rs) in
    (λ a. let (x, y) = split a in (x, to y), λ (x, y). join (x, from y))

code-aggregate :
    (config : ReadinessConfig) (rs : List CheckResult)
    → (readiness_status_code (aggregate rs) config ≡ StatusCode.ok)
      ↔ All (λ r. Accepted config r.status) rs
code-aggregate config rs =
    let (to, from) = code_Accepted config (worst rs) in
    let (all, any) = worst-Accepted config rs in
    rw aggregate-eq-worst (λ e. all (to e), λ h. from (any h))

module _ (rt : Runtime) (features : Features) (state : HealthState) (s : Store) (now : Time) where
  -- If each registered check answers, `/readyz` responds. The body has the worst status and one
  -- result for each check, as it is to be reported. The code is 200 exactly if every status is
  -- accepted: no check is unhealthy, and none is degraded under strict readiness; else it is 503.
  -- Under a deadline the response is there at the deadline and the lag of the timer.
  pub readiness_handler-Accepted :
      AllAnswer state.registry.default_timeout now (checks_of s state.registry)
      → (t : Time) × (results : List CheckResult) × (response : Response) × (readiness_handler rt
            features state s now
          ≡ done t
              (response, if features.metrics then flat_map emit_facade_metrics results else []))
        × AllReport rt.lag state.registry.default_timeout now (checks_of s state.registry) results
        × (response.body ≡ json_readiness (record { status = aggregate results; checks = results }))
        × ((response.status ≡ StatusCode.ok) ↔ All (λ r. Accepted state.config r.status) results)
        × ((response.status ≡ StatusCode.ok) ⊎ (response.status ≡ service_unavailable))
        × EndsBy (now + state.registry.default_timeout + rt.lag) state.registry.default_timeout t
  unfolding readiness_handler
  readiness_handler-Accepted h =
      let (t, results, e, reports, soon) = check_all-Reports rt features s state.registry now h in
      (
        t,
        results,
        readiness_response state.config (ok (aggregate results, results)),
        rw e,
        reports,
        refl,
        code-aggregate state.config results,
        code_either state.config (aggregate results),
        soon,
      )

  -- If each registered check answers, `/readyz` responds with 200 exactly if every check returned an
  -- accepted status before its deadline: `healthy`, or `degraded` unless readiness is strict; and it
  -- responds with 503 in all other cases, so where a check fails, reports `unhealthy`, or is late.
  pub readiness_handler-Passes :
      AllAnswer state.registry.default_timeout now (checks_of s state.registry)
      → (t : Time) × (response : Response) × (emitted : List Emission) × (readiness_handler rt
            features state s now
          ≡ done t (response, emitted))
        × ((response.status ≡ StatusCode.ok)
            ↔ All
                (Passes (Accepted state.config) state.registry.default_timeout now)
                (checks_of s state.registry))
        × ((response.status ≡ StatusCode.ok) ⊎ (response.status ≡ service_unavailable))
        × EndsBy (now + state.registry.default_timeout + rt.lag) state.registry.default_timeout t
  readiness_handler-Passes h =
      let (t, results, response, ran, reports, body, code, either, soon) =
        readiness_handler-Accepted h in
      let (to, from) =
        AllReport-Passes (Accepted state.config) state.registry.default_timeout now (λ x. x) rt.lag
          (checks_of s state.registry) results reports in
      (t, response, _, ran, (λ e. to (code.0 e), λ p. code.1 (from p)), either, soon)

  -- If a check unwinds before its deadline, the handler unwinds too, and there is no response.
  pub readiness_handler-panicked :
      AnyUnwinds state.registry.default_timeout now (checks_of s state.registry)
      → (t : Time) × (readiness_handler rt features state s now ≡ panicked t)
  unfolding readiness_handler
  readiness_handler-panicked h =
      let (t, e) = check_all-panicked rt features s state.registry now h in (t, rw e)
