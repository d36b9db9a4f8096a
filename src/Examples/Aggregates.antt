-- ===== src/Examples/Aggregates.antt =====
-- src/registry.rs and src/axum.rs: aggregates of concrete results.
use healthkit.Base.{◌≡◌, refl, ◌↔◌, Text, codes, [], ◌∷◌, none, All, Any}
use healthkit.Types.{HealthStatus, healthy, degraded, unhealthy, CheckResult}
use healthkit.Registry.{aggregate}
use healthkit.Registry.Worst.{aggregate_exact}

abbrev one : Text → HealthStatus → CheckResult
one name status = record { name = name; status = status; message = none; duration = 0 }

abbrev ok_db : CheckResult
ok_db = one (codes "db") healthy

abbrev slow_cache : CheckResult
slow_cache = one (codes "cache") degraded

aggregate_mixed : aggregate (ok_db ∷ slow_cache ∷ []) ≡ degraded
unfolding aggregate
aggregate_mixed = refl

aggregate_none : aggregate [] ≡ healthy
unfolding aggregate
aggregate_none = refl

aggregate_exact_example :
    ((aggregate (slow_cache ∷ []) ≡ healthy) ↔ All (λ r. r.status ≡ healthy) (slow_cache ∷ []))
    × ((aggregate (slow_cache ∷ []) ≡ unhealthy)
        ↔ Any (λ r. r.status ≡ unhealthy) (slow_cache ∷ []))
    × ((aggregate (slow_cache ∷ []) ≡ degraded) ↔ (
        (¬ All (λ r. r.status ≡ healthy) (slow_cache ∷ []))
        × (¬ Any (λ r. r.status ≡ unhealthy) (slow_cache ∷ []))))
aggregate_exact_example = aggregate_exact (slow_cache ∷ [])
