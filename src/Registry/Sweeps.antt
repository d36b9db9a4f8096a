-- ===== src/Registry/Sweeps.antt =====
-- src/registry.rs, `check_all` and `check_group`: what a sweep reports, when it ends, and when it
-- does not return.
use healthkit.Base.{
  ◌+◌, ◌≤◌, ◌≡◌, ◌⊎◌, inl, inr, Text, List, [], ◌∷◌, map, flat_map, All, max, arith, if◌then◌else◌,
}
use healthkit.Async.{Time, done, panicked}
use healthkit.Async.Runtime.{Runtime, Completes, AnyPanics, latest, values}
use healthkit.Duration.{Duration}
use healthkit.Types.{CheckResult}
use healthkit.Registry.Register.{RegisteredCheck, HealthRegistry, Store, checks_of}
use healthkit.Registry.Run.{run_one}
use healthkit.Registry.Sweep.{
  Features, Emission, emit_facade_metrics, members, check_all, check_group,
}
use healthkit.Registry.Reports.{
  InTime, EndsBy, Answers, Reports, Finishes, run_one-Reports, run_one-panicked,
}

-- Each check answers when it is started at `now`.
abbrev pub AllAnswer : Duration → Time → List RegisteredCheck → Type 0
AllAnswer d now = All (λ c. Answers d now (c.check_fn now))

-- There is one result for each check, in the order of the checks, and it is the one to report.
abbrev pub AllReport : Duration → Duration → Time → List RegisteredCheck → List CheckResult → Type 0
AllReport lag d now [] [] = Unit
AllReport lag d now [] (r ∷ rs) = ⊥
AllReport lag d now (c ∷ cs) [] = ⊥
AllReport lag d now (c ∷ cs) (r ∷ rs) = Reports lag d c now r × AllReport lag d now cs rs

-- One of the checks unwinds before the deadline.
abbrev pub AnyUnwinds : Duration → Time → List RegisteredCheck → Type 0
AnyUnwinds d now [] = ⊥
AnyUnwinds d now (c ∷ cs) =
    ((t : Time) × (c.check_fn now ≡ panicked t) × InTime d now t) ⊎ AnyUnwinds d now cs

module _ (rt : Runtime) (d : Duration) (now : Time) where
  abbrev Joined : List RegisteredCheck → Type 0
  Joined cs =
      (rs : List (Time × CheckResult)) × Completes (map (run_one rt d) cs) now rs
      × AllReport rt.lag d now cs (values rs)
      × EndsBy (now + d + rt.lag) d (latest now rs)

  ends_both : {limit t u : Time} → EndsBy limit d t → EndsBy limit d u → EndsBy limit d (max t u)
  ends_both (inl z) b = inl z
  ends_both (inr a) (inl z) = inl z
  ends_both (inr a) (inr b) = inr (omega arith)

  Joined-cons :
      (c : RegisteredCheck) (cs : List RegisteredCheck)
      → Finishes rt c now d
      → Joined cs
      → Joined (c ∷ cs)
  Joined-cons c cs (t, r, ran, report, soon) (rs, all_ran, reports, all_soon) =
      ((t, r) ∷ rs, (ran, all_ran), (report, reports), ends_both soon all_soon)

  joined : (cs : List RegisteredCheck) → AllAnswer d now cs → Joined cs
  joined [] h = ([], tt, tt, inr (omega arith))
  joined (c ∷ cs) h = Joined-cons c cs (run_one-Reports rt c now d h.0) (joined cs h.1)

  -- The join of the runs ends, with a report of each check.
  pub join_all-Reports :
      (cs : List RegisteredCheck)
      → AllAnswer d now cs
      → (t : Time) × (results : List CheckResult) × (rt.join_all (map (run_one rt d) cs) now
          ≡ done t results)
        × AllReport rt.lag d now cs results
        × EndsBy (now + d + rt.lag) d t
  join_all-Reports cs h =
      let (rs, all_ran, reports, soon) = joined cs h in
      (latest now rs, values rs, rt.join_all_done _ now rs all_ran, reports, soon)

  any_panics :
      (cs : List RegisteredCheck) → AnyUnwinds d now cs → AnyPanics (map (run_one rt d) cs) now
  any_panics [] h = absurd h
  any_panics (c ∷ cs) (inl (t, e, soon)) = inl (t, run_one-panicked rt c now d t e soon)
  any_panics (c ∷ cs) (inr h) = inr (any_panics cs h)

-- The latest of some instants is not before the first one.
latest-after : {A : Type 0} (now : Time) (rs : List (Time × A)) → now ≤ latest now rs
latest-after now [] = omega arith
latest-after now ((t, a) ∷ rs) = omega (arith, latest-after now rs)

module _ (rt : Runtime) (features : Features) (s : Store) (r : HealthRegistry) (now : Time) where
  -- A sweep does not end before it begins.
  pub check_all-after :
      (t : Time) (x : List CheckResult × List Emission)
      → AllAnswer r.default_timeout now (checks_of s r)
      → check_all rt features s r now ≡ done t x
      → now ≤ t
  unfolding check_all
  check_all-after t x h e =
      let (rs, all_ran, reports, soon) = joined rt r.default_timeout now (checks_of s r) h in
      let ends = rw (rt.join_all_done _ now rs all_ran) at e in
      let same : latest now rs ≡ t = cc in omega (arith, latest-after now rs)

  -- If each registered check answers, then `check_all` returns one result for each check in the
  -- order of registration, each the one to report; with the `metrics` feature it emits for each
  -- result, else nothing; and under a deadline it ends at the deadline and the lag of the timer,
  -- however many checks there are.
  pub check_all-Reports :
      AllAnswer r.default_timeout now (checks_of s r)
      → (t : Time) × (results : List CheckResult) × (check_all rt features s r now
          ≡ done t (results, if features.metrics then flat_map emit_facade_metrics results else []))
        × AllReport rt.lag r.default_timeout now (checks_of s r) results
        × EndsBy (now + r.default_timeout + rt.lag) r.default_timeout t
  unfolding check_all
  check_all-Reports h =
      let (t, results, e, reports, soon) = join_all-Reports rt r.default_timeout now _ h in
      (t, results, rw e, reports, soon)

  -- If a check unwinds before its deadline, `check_all` unwinds with it and returns no result,
  -- also none of the other checks.
  pub check_all-panicked :
      AnyUnwinds r.default_timeout now (checks_of s r)
      → (t : Time) × (check_all rt features s r now ≡ panicked t)
  unfolding check_all
  check_all-panicked h =
      let (t, e) = rt.join_all_panicked _ now (any_panics rt r.default_timeout now _ h) in (t, rw e)

module _ (rt : Runtime) (s : Store) (r : HealthRegistry) (group : Text) (now : Time) where
  -- If each check that the filter keeps answers, then `check_group` returns one
  -- result for each of them, in the order of registration, each the one to report, and
  -- under a deadline it ends at the deadline and the lag of the timer.
  pub check_group-members :
      AllAnswer r.default_timeout now (members group (checks_of s r))
      → (t : Time) × (results : List CheckResult) × (check_group rt s r group now ≡ done t results)
        × AllReport rt.lag r.default_timeout now (members group (checks_of s r)) results
        × EndsBy (now + r.default_timeout + rt.lag) r.default_timeout t
  unfolding check_group
  check_group-members h = join_all-Reports rt r.default_timeout now _ h
