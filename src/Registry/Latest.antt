-- ===== src/Registry/Latest.antt =====
-- src/registry.rs, `check_all`: a sweep of checks that all complete in time.
use healthkit.Base.{◌≡◌, refl, List, [], ◌∷◌, map, Result, ok, Text, flat_map, if◌then◌else◌}
use healthkit.Async.{Time, done}
use healthkit.Async.Runtime.{Runtime, Completes, latest, values}
use healthkit.Duration.{Duration}
use healthkit.Types.{HealthStatus, CheckResult}
use healthkit.Errors.{HealthCheckError}
use healthkit.Registry.Register.{RegisteredCheck, HealthRegistry, Store, checks_of}
use healthkit.Registry.Aggregate.{aggregate}
use healthkit.Registry.Run.{run_one}
use healthkit.Registry.Sweep.{
  Features, emit_facade_metrics, members, check_all, check_group, check_liveness, check_readiness,
}
use healthkit.Registry.Reports.{InTime, concluded, run_one-InTime}

-- What the checks come to on their own, and when.
abbrev pub Outcomes : Type 0
Outcomes = List (Time × Result HealthStatus HealthCheckError)

-- The results of these outcomes, for as many checks.
abbrev pub conclusions : Time → List RegisteredCheck → Outcomes → List CheckResult
conclusions now [] os = []
conclusions now (c ∷ cs) [] = []
conclusions now (c ∷ cs) ((t, o) ∷ os) = concluded c now t o ∷ conclusions now cs os

abbrev timed : Time → List RegisteredCheck → Outcomes → List (Time × CheckResult)
timed now [] os = []
timed now (c ∷ cs) [] = []
timed now (c ∷ cs) ((t, o) ∷ os) = (t, concluded c now t o) ∷ timed now cs os

-- Each check completes with its outcome before the deadline, if there is one.
abbrev pub AllInTime : Duration → Time → List RegisteredCheck → Outcomes → Type 0
AllInTime d now [] [] = Unit
AllInTime d now [] (o ∷ os) = ⊥
AllInTime d now (c ∷ cs) [] = ⊥
AllInTime d now (c ∷ cs) ((t, o) ∷ os) =
    (c.check_fn now ≡ done t o) × InTime d now t × AllInTime d now cs os

module _ (now : Time) where
  values-timed :
      (d : Duration) (cs : List RegisteredCheck) (os : Outcomes)
      → AllInTime d now cs os
      → (values (timed now cs os) ≡ conclusions now cs os)
        × (latest now (timed now cs os) ≡ latest now os)
  values-timed d [] [] h = (refl, refl)
  values-timed d [] (o ∷ os) h = absurd h
  values-timed d (c ∷ cs) [] h = absurd h
  values-timed d (c ∷ cs) ((t, o) ∷ os) h = let (e, e') = values-timed d cs os h.2 in (rw e, rw e')

  Completes-timed :
      (rt : Runtime) (d : Duration) (cs : List RegisteredCheck) (os : Outcomes)
      → AllInTime d now cs os
      → Completes (map (run_one rt d) cs) now (timed now cs os)
  Completes-timed rt d [] [] h = tt
  Completes-timed rt d [] (o ∷ os) h = absurd h
  Completes-timed rt d (c ∷ cs) [] h = absurd h
  Completes-timed rt d (c ∷ cs) ((t, o) ∷ os) h =
      (run_one-InTime rt c now d t o h.0 h.1, Completes-timed rt d cs os h.2)

module _ (rt : Runtime) (now : Time) where
  -- A sweep ends with the last of its runs, if all of them complete.
  pub check_all-Completes :
      (features : Features) (s : Store) (r : HealthRegistry) (rs : List (Time × CheckResult))
      → Completes (map (run_one rt r.default_timeout) (checks_of s r)) now rs
      → check_all rt features s r now
        ≡ done
            (latest now rs)
            (values rs, if features.metrics then flat_map emit_facade_metrics (values rs) else [])
  unfolding check_all
  check_all-Completes features s r rs h = rw (rt.join_all_done _ now rs h)

  pub check_group-Completes :
      (s : Store) (r : HealthRegistry) (group : Text) (rs : List (Time × CheckResult))
      → Completes (map (run_one rt r.default_timeout) (members group (checks_of s r))) now rs
      → check_group rt s r group now ≡ done (latest now rs) (values rs)
  unfolding check_group
  check_group-Completes s r group rs h = rt.join_all_done _ now rs h

  -- The join of runs that are all in time.
  pub join_all-AllInTime :
      (d : Duration) (cs : List RegisteredCheck) (os : Outcomes)
      → AllInTime d now cs os
      → rt.join_all (map (run_one rt d) cs) now ≡ done (latest now os) (conclusions now cs os)
  join_all-AllInTime d cs os h =
      let (e, e') = values-timed now d cs os h in
      rw (← e, ← e') (rt.join_all_done _ now _ (Completes-timed now rt d cs os h))

  -- A sweep of a group of which each check completes before its deadline.
  pub check_group-latest :
      (s : Store) (r : HealthRegistry) (group : Text) (os : Outcomes)
      → AllInTime r.default_timeout now (members group (checks_of s r)) os
      → check_group rt s r group now
        ≡ done (latest now os) (conclusions now (members group (checks_of s r)) os)
  unfolding check_group
  check_group-latest s r group os h = join_all-AllInTime r.default_timeout _ os h

  -- If each check completes before its deadline, `check_all` ends at the instant at which the last
  -- of them does, however many there are: the checks run at the same time. It returns what each of
  -- them came to, in the order of registration.
  pub check_all-latest :
      (features : Features) (s : Store) (r : HealthRegistry) (os : Outcomes)
      → AllInTime r.default_timeout now (checks_of s r) os
      → check_all rt features s r now
        ≡ done (latest now os) (
          conclusions now (checks_of s r) os,
          if features.metrics
              then flat_map emit_facade_metrics (conclusions now (checks_of s r) os)
              else [],
        )
  unfolding check_all
  check_all-latest features s r os h =
      rw (join_all-AllInTime r.default_timeout (checks_of s r) os h)

  pub check_liveness-latest :
      (features : Features) (s : Store) (r : HealthRegistry) (os : Outcomes)
      → AllInTime r.default_timeout now (checks_of s r) os
      → check_liveness rt features s r now
        ≡ done (latest now os) (
          ok (aggregate (conclusions now (checks_of s r) os)),
          if features.metrics
              then flat_map emit_facade_metrics (conclusions now (checks_of s r) os)
              else [],
        )
  unfolding check_liveness
  check_liveness-latest features s r os h = rw (check_all-latest features s r os h)

  pub check_readiness-latest :
      (features : Features) (s : Store) (r : HealthRegistry) (os : Outcomes)
      → AllInTime r.default_timeout now (checks_of s r) os
      → check_readiness rt features s r now
        ≡ done (latest now os) (
          ok (aggregate (conclusions now (checks_of s r) os), conclusions now (checks_of s r) os),
          if features.metrics
              then flat_map emit_facade_metrics (conclusions now (checks_of s r) os)
              else [],
        )
  unfolding check_readiness
  check_readiness-latest features s r os h = rw (check_all-latest features s r os h)
