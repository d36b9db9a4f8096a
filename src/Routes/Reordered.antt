-- ===== src/Routes/Reordered.antt =====
-- src/axum.rs, `readiness_handler`: that the verdict depends on nothing but the set of the check
-- functions, and not on their order, repetitions, names or groups.
use healthkit.Base.{
  ◌≡◌, refl, sym, ap, ◌∙◌, ◌≢◌, ◌↔◌, inl, inr, List, [], ◌∷◌, All, Any, ok, flat_map, if◌then◌else◌,
}
use healthkit.Async.{Time, done}
use healthkit.Async.Runtime.{Runtime}
use healthkit.Duration.{Duration}
use healthkit.Types.{HealthStatus, healthy, degraded, unhealthy, CheckResult}
use healthkit.Registry.{
  RegisteredCheck, Store, Features, Emission, checks_of, aggregate, emit_facade_metrics,
}
use healthkit.Registry.Passing.{Passes}
use healthkit.Registry.Verdicts.{aggregate_healthy, aggregate_up}
use healthkit.Registry.Sweeps.{AllAnswer, AllReport, check_all-Reports}
use healthkit.Routes.Handlers.{
  Response, HealthState, json_readiness, readiness_response, readiness_handler,
}

-- Each check function of the first list is one of the second.
abbrev pub Within : List RegisteredCheck → List RegisteredCheck → Type 0
Within cs cs' = All (λ c. Any (λ c'. c.check_fn ≡ c'.check_fn) cs') cs

module _ (P : HealthStatus → Type 0) (d : Duration) (now : Time) where
  Passes-same :
      (c c' : RegisteredCheck) → c.check_fn ≡ c'.check_fn → Passes P d now c' → Passes P d now c
  Passes-same c c' e (t, s, ran, soon, p) = (t, s, ap (λ f. f now) e ∙ ran, soon, p)

  Passes-of_Any :
      (c : RegisteredCheck) (cs : List RegisteredCheck)
      → Any (λ c'. c.check_fn ≡ c'.check_fn) cs
      → All (Passes P d now) cs
      → Passes P d now c
  Passes-of_Any c [] h p = absurd h
  Passes-of_Any c (c' ∷ cs) (inl e) p = Passes-same c c' e p.0
  Passes-of_Any c (c' ∷ cs) (inr h) p = Passes-of_Any c cs h p.1

  All-Within :
      (cs cs' : List RegisteredCheck)
      → Within cs cs'
      → All (Passes P d now) cs'
      → All (Passes P d now) cs
  All-Within [] cs' h p = tt
  All-Within (c ∷ cs) cs' h p = (Passes-of_Any c cs' h.0 p, All-Within cs cs' h.1 p)

-- A status is known by whether it is the best one and whether it is not the worst.
known :
    (a b : HealthStatus) → (a ≡ healthy) ↔ (b ≡ healthy) → (a ≢ unhealthy) ↔ (b ≢ unhealthy) → a ≡ b
known healthy healthy h w = refl
known healthy b h w = sym (h.0 refl)
known degraded healthy h w = h.1 refl
known degraded degraded h w = refl
known degraded unhealthy h w = absurd (w.0 (λ e. cc) refl)
known unhealthy healthy h w = h.1 refl
known unhealthy degraded h w = absurd (w.1 (λ e. cc) refl)
known unhealthy unhealthy h w = refl

aggregate-Within :
    (lag d : Duration) (now : Time) (cs cs' : List RegisteredCheck) (rs rs' : List CheckResult)
    → Within cs cs'
    → Within cs' cs
    → AllReport lag d now cs rs
    → AllReport lag d now cs' rs'
    → aggregate rs ≡ aggregate rs'
aggregate-Within lag d now cs cs' rs rs' there back reports reports' =
    let (h, h') = aggregate_healthy lag d now cs rs reports in
    let (k, k') = aggregate_healthy lag d now cs' rs' reports' in
    let (u, u') = aggregate_up lag d now cs rs reports in
    let (v, v') = aggregate_up lag d now cs' rs' reports' in
    let good = All-Within (λ x. x ≡ healthy) d now in
    let up = All-Within (λ x. x ≢ unhealthy) d now in
    known (aggregate rs) (aggregate rs')
      (λ e. k' (good cs' cs back (h e)), λ e. h' (good cs cs' there (k e)))
      (λ e. v' (up cs' cs back (u e)), λ e. u' (up cs cs' there (v e)))

module _ (rt : Runtime) (features : Features) (state state' : HealthState) (s s' : Store)
    (now : Time) where
  -- If two registries with the same deadline have the same set of check functions, whatever their
  -- order, repetitions, names and groups, and each of them answers, then `/readyz` responds for both,
  -- under the same configuration with the same code and the same overall status.
  pub readiness_handler-Within :
      state.config ≡ state'.config
      → state.registry.default_timeout ≡ state'.registry.default_timeout
      → Within (checks_of s state.registry) (checks_of s' state'.registry)
      → Within (checks_of s' state'.registry) (checks_of s state.registry)
      → AllAnswer state.registry.default_timeout now (checks_of s state.registry)
      → AllAnswer state'.registry.default_timeout now (checks_of s' state'.registry)
      → (t : Time) × (t' : Time) × (response : Response) × (response' : Response) × (emitted : List
          Emission)
        × (emitted' : List Emission) × (results : List CheckResult) × (results' : List CheckResult)
        × (overall : HealthStatus) × (readiness_handler rt features state s now
            ≡ done t (response, emitted))
        × (readiness_handler rt features state' s' now ≡ done t' (response', emitted'))
        × (response.status ≡ response'.status)
        × (response.body ≡ json_readiness (record { status = overall; checks = results }))
        × (response'.body ≡ json_readiness (record { status = overall; checks = results' }))
  unfolding readiness_handler readiness_response
  readiness_handler-Within e d there back h h' =
      let (t, results, ran, reports, soon) = check_all-Reports rt features s state.registry now h in
      let (t', results', ran', reports', soon') =
        check_all-Reports rt features s' state'.registry now h' in
      let same : aggregate results ≡ aggregate results' =
        aggregate-Within rt.lag state'.registry.default_timeout now (checks_of s state.registry)
          (checks_of s' state'.registry) results results' there back (rw d at reports) reports' in
      (
        t,
        t',
        readiness_response state.config (ok (aggregate results, results)),
        readiness_response state'.config (ok (aggregate results', results')),
        if features.metrics then flat_map emit_facade_metrics results else [],
        if features.metrics then flat_map emit_facade_metrics results' else [],
        results,
        results',
        aggregate results,
        rw ran refl,
        rw ran' refl,
        rw (e, same) refl,
        refl,
        rw same refl,
      )
