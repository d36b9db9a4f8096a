-- ===== src/Registry/Passing.antt =====
-- src/registry.rs: which checks have a result with a status that is accepted, in terms of what the
-- checks did and not of their results.
use healthkit.Base.{
  ◌+◌, ◌≤◌, ◌<◌, ◌≡◌, ap, ◌↔◌, inl, inr, List, [], ◌∷◌, All, Result, ok, err, arith,
}
use healthkit.Async.Runtime.{Late}
use healthkit.Async.{Time, Outcome, done}
use healthkit.Duration.{Duration}
use healthkit.Types.{HealthStatus, unhealthy, CheckResult}
use healthkit.Errors.{HealthCheckError}
use healthkit.Registry.Register.{RegisteredCheck}
use healthkit.Registry.Reports.{InTime, Reports}
use healthkit.Registry.Sweeps.{AllReport}

module _ (P : HealthStatus → Type 0) (d : Duration) (now : Time) where
  -- The check returned a status of this kind before the deadline.
  abbrev pub Passes : RegisteredCheck → Type 0
  Passes c =
      (t : Time) × (s : HealthStatus) × (c.check_fn now ≡ done t (ok s)) × InTime d now t × P s

  -- A check that returned once did not return otherwise.
  same_status :
      (o : Outcome (Result HealthStatus HealthCheckError)) (t u : Time) (s s' : HealthStatus)
      → o ≡ done t (ok s)
      → o ≡ done u (ok s')
      → s' ≡ s
  same_status o t u s s' e e' = cc

  no_status :
      (o : Outcome (Result HealthStatus HealthCheckError)) (t u : Time) (e : HealthCheckError)
      (s : HealthStatus)
      → o ≡ done t (err e)
      → ¬ (o ≡ done u (ok s))
  no_status o t u e s failed returned = cc

  expired :
      (o : Outcome (Result HealthStatus HealthCheckError)) (t : Time) (s : HealthStatus)
      → 0 < d
      → Late (now + d) o
      → o ≡ done t (ok s)
      → ¬ InTime d now t
  expired o t s pos late e (inl z) = omega arith
  expired o t s pos late e (inr soon) = let from : now + d ≤ t = rw e at late in omega arith

  Reports-Passes :
      (P unhealthy → ⊥)
      → {lag : Duration} (c : RegisteredCheck) (r : CheckResult) → Reports lag d c now r
      → P r.status ↔ Passes c
  Reports-Passes bad c r (Reports.returned t s e soon eq) =
      let same : r.status ≡ s = ap (λ (x : CheckResult). x.status) eq in
      (
        λ p. (t, s, e, soon, rw same at p),
        λ (u, s', e', soon', p). rw same (rw (same_status (c.check_fn now) t u s s' e e') at p),
      )
  Reports-Passes bad c r (Reports.failed t x e soon eq) =
      let same : r.status ≡ unhealthy = ap (λ (x : CheckResult). x.status) eq in
      (
        λ p. absurd (bad (rw same at p)),
        λ (u, s, e', soon', p). absurd (no_status (c.check_fn now) t u x s e e'),
      )
  Reports-Passes bad c r (Reports.timed_out t pos late from to eq) =
      let same : r.status ≡ unhealthy = ap (λ (x : CheckResult). x.status) eq in
      (
        λ p. absurd (bad (rw same at p)),
        λ (u, s, e, soon, p). absurd (expired (c.check_fn now) u s pos late e soon),
      )

  -- Where unhealthy is not accepted, all results are accepted exactly if all checks returned an
  -- accepted status in time.
  pub AllReport-Passes :
      (P unhealthy → ⊥)
      → (lag : Duration) (cs : List RegisteredCheck) (rs : List CheckResult)
      → AllReport lag d now cs rs
      → All (λ r. P r.status) rs ↔ All Passes cs
  AllReport-Passes bad lag [] [] h = (λ x. tt, λ x. tt)
  AllReport-Passes bad lag [] (r ∷ rs) h = absurd h
  AllReport-Passes bad lag (c ∷ cs) [] h = absurd h
  AllReport-Passes bad lag (c ∷ cs) (r ∷ rs) h =
      let (to, from) = Reports-Passes bad c r h.0 in
      let (all_to, all_from) = AllReport-Passes bad lag cs rs h.1 in
      (λ x. (to x.0, all_to x.1), λ x. (from x.0, all_from x.1))
