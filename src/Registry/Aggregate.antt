-- ===== src/Registry/Aggregate.antt =====
-- src/registry.rs: `aggregate`, the worst observed status.
use healthkit.Base.{ℕ, List, [], ◌∷◌, map, Option, none, some, leb, if◌then◌else◌}
use healthkit.Types.{HealthStatus, healthy, degraded, unhealthy, CheckResult}

-- The key of `max_by_key`.
unfoldable pub severity : HealthStatus → ℕ
severity healthy = 0
severity degraded = 1
severity unhealthy = 2

-- `Iterator::max_by_key`: of several greatest elements, the last one.
module _ {A : Type 0} (key : A → ℕ) where
  abbrev pub max_from : A → List A → A
  max_from best [] = best
  max_from best (x ∷ xs) = max_from (if leb (key best) (key x) then x else best) xs

  unfoldable pub max_by_key : List A → Option A
  max_by_key [] = none
  max_by_key (x ∷ xs) = some (max_from x xs)

abbrev or_healthy : Option HealthStatus → HealthStatus
or_healthy none = healthy
or_healthy (some s) = s

unfoldable pub aggregate : List CheckResult → HealthStatus
unfolding max_by_key severity
aggregate results = or_healthy (max_by_key severity (map (λ r. r.status) results))
