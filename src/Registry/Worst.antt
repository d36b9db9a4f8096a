-- ===== src/Registry/Worst.antt =====
-- src/registry.rs, `aggregate`: the worst observed status, against an independent description.
use mathlib.Core.List.{Perm, Permᴰ}
use mathlib.Core.Logic.{∥∥₁_elim}
use mathlib.Core.Path.{ap₂}
use mathlib.Core.HLevel.{hedberg}
use healthkit.Base.{
  ◌≡◌, refl, sym, ◌∙◌, ◌↔◌, List, [], ◌∷◌, ◌++◌, map, All, Any, leb, arith, if◌then◌else◌,
}
use healthkit.Types.{HealthStatus, healthy, degraded, unhealthy, CheckResult, HealthStatus-discrete}
use healthkit.Registry.Aggregate.{severity, max_from, aggregate}

-- The worse of two statuses, as a table.
abbrev pub worse : HealthStatus → HealthStatus → HealthStatus
worse healthy b = b
worse degraded unhealthy = unhealthy
worse degraded b = degraded
worse unhealthy b = unhealthy

-- The worst status of the results, by recursion: `healthy` if there is none.
abbrev pub worst : List CheckResult → HealthStatus
worst [] = healthy
worst (r ∷ rs) = worse r.status (worst rs)

worse_assoc : (a b c : HealthStatus) → worse (worse a b) c ≡ worse a (worse b c)
worse_assoc a b c = ground arith

worse_comm : (a b : HealthStatus) → worse a b ≡ worse b a
worse_comm a b = ground arith

-- A round of `max_by_key` keeps the worse status.
keep_worse : (a b : HealthStatus) → (if leb (severity a) (severity b) then b else a) ≡ worse a b
unfolding severity
keep_worse a b = ground arith

max_from-worst :
    (best : HealthStatus) (rs : List CheckResult)
    → max_from severity best (map (λ r. r.status) rs) ≡ worse best (worst rs)
max_from-worst best [] = worse_comm healthy best
max_from-worst best (r ∷ rs) =
    max_from-worst (if leb (severity best) (severity r.status) then r.status else best) rs
    ∙ rw keep_worse (worse_assoc best r.status (worst rs))

-- `aggregate` is the worst status of the results, and `healthy` for none.
pub aggregate-eq-worst : (rs : List CheckResult) → aggregate rs ≡ worst rs
unfolding aggregate
aggregate-eq-worst [] = refl
aggregate-eq-worst (r ∷ rs) = max_from-worst r.status rs

worst_swap : (a b : HealthStatus) (c : HealthStatus) → worse a (worse b c) ≡ worse b (worse a c)
worst_swap a b c = ground arith

worst-Permᴰ : {rs rs' : List CheckResult} → Permᴰ rs rs' → worst rs ≡ worst rs'
worst-Permᴰ Permᴰ.nil = refl
worst-Permᴰ (Permᴰ.cons e p) = ap₂ (λ (a : CheckResult). worse a.status) e (worst-Permᴰ p)
worst-Permᴰ (Permᴰ.swap {a} {b} {a' = a'} {b' = b'} {l = l} e f) =
    worst_swap a.status b.status (worst l)
    ∙ ap₂ (λ (x y : CheckResult). worse x.status (worse y.status (worst l))) f e
worst-Permᴰ (Permᴰ.trans p q) = worst-Permᴰ p ∙ worst-Permᴰ q

-- The aggregate does not depend on the order of the results.
pub aggregate-perm : (rs rs' : List CheckResult) → Perm rs rs' → aggregate rs ≡ aggregate rs'
aggregate-perm rs rs' p =
    aggregate-eq-worst rs
    ∙ ∥∥₁_elim p (hedberg HealthStatus-discrete _ _) worst-Permᴰ
    ∙ sym (aggregate-eq-worst rs')

-- The aggregate of two sweeps is the worse of their aggregates.
pub aggregate-append :
    (rs rs' : List CheckResult) → aggregate (rs ++ rs') ≡ worse (aggregate rs) (aggregate rs')
aggregate-append rs rs' = simp aggregate-eq-worst (go rs)
  where
    go : (rs : List CheckResult) → worst (rs ++ rs') ≡ worse (worst rs) (worst rs')
    go [] = refl
    go (r ∷ rs) = rw (go rs) (sym (worse_assoc r.status (worst rs) (worst rs')))

worst-healthy : (rs : List CheckResult) → (worst rs ≡ healthy) ↔ All (λ r. r.status ≡ healthy) rs
worst-healthy [] = (λ e. tt, λ h. refl)
worst-healthy (r ∷ rs) = let (to, from) = worst-healthy rs in ground (arith, to, from)

worst-unhealthy :
    (rs : List CheckResult) → (worst rs ≡ unhealthy) ↔ Any (λ r. r.status ≡ unhealthy) rs
worst-unhealthy [] = (λ e. cc, λ h. absurd h)
worst-unhealthy (r ∷ rs) = let (to, from) = worst-unhealthy rs in ground (arith, to, from)

degraded_iff : (s : HealthStatus) → (s ≡ degraded) ↔ ((¬ (s ≡ healthy)) × (¬ (s ≡ unhealthy)))
degraded_iff s = ground arith

worst-degraded :
    (rs : List CheckResult)
    → (worst rs ≡ degraded)
      ↔ ((¬ All (λ r. r.status ≡ healthy) rs) × (¬ Any (λ r. r.status ≡ unhealthy) rs))
worst-degraded rs =
    let (h, h') = worst-healthy rs in
    let (u, u') = worst-unhealthy rs in
    let (to, from) = degraded_iff (worst rs) in
    (
      λ e. (λ all. (to e).0 (h' all), λ any. (to e).1 (u' any)),
      λ n. from (λ e. n.0 (h e), λ e. n.1 (u e)),
    )

-- The aggregate is `healthy` exactly when every result is, `unhealthy` exactly when some result is,
-- and else `degraded`: then no result is unhealthy, and not all are healthy.
pub aggregate_exact :
    (rs : List CheckResult)
    → ((aggregate rs ≡ healthy) ↔ All (λ r. r.status ≡ healthy) rs)
      × ((aggregate rs ≡ unhealthy) ↔ Any (λ r. r.status ≡ unhealthy) rs)
      × ((aggregate rs ≡ degraded)
          ↔ ((¬ All (λ r. r.status ≡ healthy) rs) × (¬ Any (λ r. r.status ≡ unhealthy) rs)))
aggregate_exact rs = rw aggregate-eq-worst (worst-healthy rs, worst-unhealthy rs, worst-degraded rs)
