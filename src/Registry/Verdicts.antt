-- ===== src/Registry/Verdicts.antt =====
-- src/registry.rs, `check_liveness` and `check_readiness`: the status that they return, in terms of
-- what the checks did.
use healthkit.Base.{
  ◌+◌, ◌≡◌, refl, ◌≢◌, ◌↔◌, List, [], ◌∷◌, All, Any, ok, flat_map, inl, inr, if◌then◌else◌,
}
use healthkit.Async.{Time, done}
use healthkit.Async.Runtime.{Runtime}
use healthkit.Duration.{Duration}
use healthkit.Types.{HealthStatus, healthy, unhealthy, CheckResult}
use healthkit.Registry.Register.{RegisteredCheck, HealthRegistry, Store, checks_of}
use healthkit.Registry.Aggregate.{aggregate}
use healthkit.Registry.Sweep.{Features, Emission, emit_facade_metrics, check_liveness}
use healthkit.Registry.Reports.{EndsBy}
use healthkit.Registry.Worst.{aggregate_exact}
use healthkit.Registry.Sweeps.{AllAnswer, AllReport, check_all-Reports}
use healthkit.Registry.Passing.{Passes, AllReport-Passes}

none_unhealthy :
    (rs : List CheckResult)
    → (¬ Any (λ r. r.status ≡ unhealthy) rs) ↔ All (λ r. r.status ≢ unhealthy) rs
none_unhealthy [] = (λ n. tt, λ h x. absurd x)
none_unhealthy (r ∷ rs) =
    let (to, from) = none_unhealthy rs in
    (
      λ n. (λ e. n (inl e), to (λ x. n (inr x))),
      λ (h, hs) x. elim x [ inl e ↦ h e | inr y ↦ from hs y ],
    )

module _ (lag d : Duration) (now : Time) (cs : List RegisteredCheck) (rs : List CheckResult)
    (reports : AllReport lag d now cs rs) where
  -- The aggregate is `healthy` exactly if every check returned `healthy` in time.
  pub aggregate_healthy : (aggregate rs ≡ healthy) ↔ All (Passes (λ x. x ≡ healthy) d now) cs
  aggregate_healthy =
      let (good, bad, slow) = aggregate_exact rs in
      let (to, from) = AllReport-Passes (λ x. x ≡ healthy) d now (λ e. cc) lag cs rs reports in
      (λ x. to (good.0 x), λ p. good.1 (from p))

  -- It is other than `unhealthy` exactly if every check returned such a status in time.
  pub aggregate_up : (aggregate rs ≢ unhealthy) ↔ All (Passes (λ x. x ≢ unhealthy) d now) cs
  aggregate_up =
      let (good, bad, slow) = aggregate_exact rs in
      let (up, back) =
        AllReport-Passes (λ x. x ≢ unhealthy) d now (λ n. n refl) lag cs rs reports in
      let (all_up, any_down) = none_unhealthy rs in
      (λ n. up (all_up (λ x. n (bad.1 x))), λ p x. any_down (back p) (bad.0 x))

module _ (rt : Runtime) (features : Features) (s : Store) (r : HealthRegistry) (now : Time) where
  -- If each registered check answers, `check_liveness` returns a status, never an error, under a
  -- deadline at the deadline and the lag of the timer: `healthy` exactly if every check returned
  -- `healthy` before its deadline, and other than `unhealthy` exactly if every check returned such a
  -- status before it; so `degraded` is what remains.
  pub check_liveness-Passes :
      AllAnswer r.default_timeout now (checks_of s r)
      → (t : Time) × (status : HealthStatus) × (emitted : List Emission) × (check_liveness rt
            features s r now
          ≡ done t (ok status, emitted))
        × ((status ≡ healthy)
            ↔ All (Passes (λ x. x ≡ healthy) r.default_timeout now) (checks_of s r))
        × ((status ≢ unhealthy)
            ↔ All (Passes (λ x. x ≢ unhealthy) r.default_timeout now) (checks_of s r))
        × EndsBy (now + r.default_timeout + rt.lag) r.default_timeout t
  unfolding check_liveness
  check_liveness-Passes h =
      let (t, results, e, reports, soon) = check_all-Reports rt features s r now h in
      (
        t,
        aggregate results,
        if features.metrics then flat_map emit_facade_metrics results else [],
        rw e,
        aggregate_healthy rt.lag r.default_timeout now (checks_of s r) results reports,
        aggregate_up rt.lag r.default_timeout now (checks_of s r) results reports,
        soon,
      )
