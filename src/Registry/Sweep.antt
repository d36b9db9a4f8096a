-- ===== src/Registry/Sweep.antt =====
-- src/registry.rs: the sweeps over all checks or one group, and what they emit through the
-- `metrics` facade.
use healthkit.Base.{
  ℕ, Bool, true, false, Text, codes, List, [], ◌∷◌, map, flat_map, Option, none, some, Result, ok,
  ◌&&◌, ◌==◌, dec_true, filter, if◌then◌else◌,
}
use healthkit.Async.{Async, pure, ◌>>=◌}
use healthkit.Async.Runtime.{Runtime}
use healthkit.Duration.{Duration}
use healthkit.Types.{HealthStatus, CheckResult, status_text}
use healthkit.Errors.{HealthCheckError}
use healthkit.Registry.Register.{RegisteredCheck, HealthRegistry, Store, checks_of}
use healthkit.Registry.Run.{run_one}
use healthkit.Registry.Aggregate.{aggregate}

-- The cargo features that change what a sweep does.
pub record Features : Type 0 where
  pub metrics : Bool

-- A call into the `metrics` facade: an increment of a counter under its labels, or a value recorded
-- in a histogram under its labels. The recorded seconds are kept as the duration they are read from.
pub data Emission : Type 0 where
  counter : Text → List (Text × Text) → ℕ → Emission
  histogram : Text → List (Text × Text) → Duration → Emission

unfoldable pub emit_facade_metrics : CheckResult → List Emission
emit_facade_metrics result =
    counter (codes "healthkit_check_result")
      ((codes "name", result.name) ∷ (codes "status", status_text result.status) ∷ []) 1
    ∷ histogram (codes "healthkit_check_duration_seconds") ((codes "name", result.name) ∷ [])
        result.duration
    ∷ []

-- Equality of two strings.
unfoldable pub text_eq : Text → Text → Bool
text_eq [] [] = true
text_eq (a ∷ s) (b ∷ t) = a == b && text_eq s t
text_eq _ _ = false

-- `check.group.as_deref() == Some(group)`
unfoldable pub in_group : Text → Option Text → Bool
unfolding text_eq
in_group group none = false
in_group group (some g) = text_eq g group

-- `.filter(…)`
unfoldable pub members : Text → List RegisteredCheck → List RegisteredCheck
unfolding in_group
members group = filter (λ c. dec_true (in_group group c.group))

module _ (rt : Runtime) where
  unfoldable pub check_all :
      Features → Store → HealthRegistry → Async (List CheckResult × List Emission)
  unfolding run_one emit_facade_metrics flat_map
  check_all features s r = do
    let timeout = r.default_timeout
    let snapshot = checks_of s r
    results ← rt.join_all (map (run_one rt timeout) snapshot)
    pure (results, if features.metrics then flat_map emit_facade_metrics results else [])

  unfoldable pub check_group : Store → HealthRegistry → Text → Async (List CheckResult)
  unfolding run_one members
  check_group s r group = do
    let timeout = r.default_timeout
    let snapshot = checks_of s r
    rt.join_all (map (run_one rt timeout) (members group snapshot))

  unfoldable pub check_liveness :
      Features
      → Store
      → HealthRegistry
      → Async (Result HealthStatus HealthCheckError × List Emission)
  unfolding check_all aggregate
  check_liveness features s r = do
    (results, emitted) ← check_all features s r
    pure (ok (aggregate results), emitted)

  unfoldable pub check_readiness :
      Features
      → Store
      → HealthRegistry
      → Async (Result (HealthStatus × List CheckResult) HealthCheckError × List Emission)
  unfolding check_all aggregate
  check_readiness features s r = do
    (results, emitted) ← check_all features s r
    let overall = aggregate results
    pure (ok (overall, results), emitted)
