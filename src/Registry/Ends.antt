-- ===== src/Registry/Ends.antt =====
-- src/registry.rs, `check_all`: how a sweep ends, by what its checks do.
use native.Mathlib.Decide.{dec_le, dec_lt}
use healthkit.Base.{
  ◌+◌, ◌≤◌, ◌<◌, ◌≡◌, refl, ◌↔◌, ◌⊎◌, inl, inr, List, [], ◌∷◌, map, Any, Result, arith,
}
use healthkit.Async.{Time, Outcome, done, panicked, hangs}
use healthkit.Async.Runtime.{Runtime, AnyHangs, AnyPanics}
use healthkit.Duration.{Duration}
use healthkit.Types.{HealthStatus, CheckResult}
use healthkit.Errors.{HealthCheckError}
use healthkit.Registry.Register.{RegisteredCheck, HealthRegistry, Store, checks_of}
use healthkit.Registry.Run.{run_one}
use healthkit.Registry.Sweep.{Features, Emission, check_all}
use healthkit.Registry.Reports.{EndsBy, InTime, Answers, run_one_stuck, run_one-Reports}
use healthkit.Registry.Sweeps.{
  AllAnswer, AllReport, AnyUnwinds, check_all-Reports, check_all-panicked,
}

-- Without a deadline, a check never completes.
abbrev pub AnyStuck : Duration → Time → List RegisteredCheck → Type 0
AnyStuck d now cs = (d ≡ 0) × Any (λ c. c.check_fn now ≡ hangs) cs

module _ (d : Duration) (now : Time) where
  abbrev Unwinds : RegisteredCheck → Type 0
  Unwinds c = (t : Time) × (c.check_fn now ≡ panicked t) × InTime d now t

  -- What a single check means for its sweep.
  abbrev Fate : RegisteredCheck → Type 0
  Fate c = Answers d now (c.check_fn now) ⊎ (Unwinds c ⊎ ((d ≡ 0) × (c.check_fn now ≡ hangs)))

  examine_at :
      (c : RegisteredCheck) (o : Outcome (Result HealthStatus HealthCheckError))
      → c.check_fn now ≡ o
      → Fate c
  examine_at c (done t a) e = inl (rw e tt)
  examine_at c (panicked t) e = elim (dec_le 1 d) [
    | no none_set ↦ inr (inl (t, e, inl (omega arith)))
    | yes pos ↦ elim (dec_lt t (now + d)) [
      | yes soon ↦ inr (inl (t, e, inr soon))
      | no late ↦ inl (rw e (pos, omega arith))
    ]
  ]
  examine_at c hangs e = elim (dec_le 1 d) [
    | no none_set ↦ inr (inr (omega arith, e))
    | yes pos ↦ inl (rw e pos)
  ]

  examine : (c : RegisteredCheck) → Fate c
  examine c = examine_at c (c.check_fn now) refl

  not_both : (c : RegisteredCheck) → Answers d now (c.check_fn now) → ¬ Unwinds c
  not_both c a (t, e, soon) = let late : (0 < d) × (now + d ≤ t) = rw e at a in too_soon late soon
    where
      too_soon : (0 < d) × (now + d ≤ t) → ¬ InTime d now t
      too_soon l (inl z) = omega arith
      too_soon l (inr s) = omega arith

  none_unwinds : (cs : List RegisteredCheck) → AllAnswer d now cs → ¬ AnyUnwinds d now cs
  none_unwinds [] h k = k
  none_unwinds (c ∷ cs) h (inl u) = not_both c h.0 u
  none_unwinds (c ∷ cs) h (inr k) = none_unwinds cs h.1 k

  abbrev Stuck : List RegisteredCheck → Type 0
  Stuck cs = AnyStuck d now cs × (¬ AnyUnwinds d now cs)

  two_fates : (c : RegisteredCheck) → c.check_fn now ≡ hangs → ¬ Unwinds c
  two_fates c e (t, e', soon) = cc

  abbrev Class : List RegisteredCheck → Type 0
  Class cs = AllAnswer d now cs ⊎ (AnyUnwinds d now cs ⊎ Stuck cs)

  Class-cons :
      (c : RegisteredCheck) (cs : List RegisteredCheck) → Fate c → Class cs → Class (c ∷ cs)
  Class-cons c cs (inr (inl u)) k = inr (inl (inl u))
  Class-cons c cs (inl a) (inl all) = inl (a, all)
  Class-cons c cs (inl a) (inr (inl u)) = inr (inl (inr u))
  Class-cons c cs (inl a) (inr (inr ((z, any), n))) =
      inr (inr ((z, inr any), λ u. elim u [ inl x ↦ not_both c a x | inr y ↦ n y ]))
  Class-cons c cs (inr (inr (z, e))) (inl all) =
      inr
        (inr ((z, inl e), λ u. elim u [ inl x ↦ two_fates c e x | inr y ↦ none_unwinds cs all y ]))
  Class-cons c cs (inr (inr (z, e))) (inr (inl u)) = inr (inl (inr u))
  Class-cons c cs (inr (inr (z, e))) (inr (inr ((z', any), n))) =
      inr (inr ((z, inl e), λ u. elim u [ inl x ↦ two_fates c e x | inr y ↦ n y ]))

  classify : (cs : List RegisteredCheck) → Class cs
  classify [] = inl tt
  classify (c ∷ cs) = Class-cons c cs (examine c) (classify cs)

module _ (rt : Runtime) (d : Duration) (now : Time) where
  any_hangs :
      (cs : List RegisteredCheck)
      → d ≡ 0
      → Any (λ c. c.check_fn now ≡ hangs) cs
      → AnyHangs (map (run_one rt d) cs) now
  any_hangs [] z k = k
  any_hangs (c ∷ cs) z (inl e) = inl (rw z (run_one_stuck rt c now e))
  any_hangs (c ∷ cs) z (inr k) = inr (any_hangs cs z k)

  cause_of_run :
      (c : RegisteredCheck) (t : Time)
      → Fate d now c
      → run_one rt d c now ≡ panicked t
      → Unwinds d now c
  cause_of_run c t (inl a) e = let (u, r, ran, report, soon) = run_one-Reports rt c now d a in cc
  cause_of_run c t (inr (inl u)) e = u
  cause_of_run c t (inr (inr (z, h))) e =
      let stuck : run_one rt d c now ≡ hangs = rw z (run_one_stuck rt c now h) in cc

  causes_of_runs :
      (cs : List RegisteredCheck) → AnyPanics (map (run_one rt d) cs) now → AnyUnwinds d now cs
  causes_of_runs [] k = k
  causes_of_runs (c ∷ cs) (inl (t, e)) = inl (cause_of_run c t (examine d now c) e)
  causes_of_runs (c ∷ cs) (inr k) = inr (causes_of_runs cs k)

module _ (rt : Runtime) (features : Features) (s : Store) (r : HealthRegistry) (now : Time) where
  check_all-Stuck :
      Stuck r.default_timeout now (checks_of s r) → check_all rt features s r now ≡ hangs
  unfolding check_all
  check_all-Stuck ((z, any), n) = rw (
      rt.join_all_hangs _ now (any_hangs rt r.default_timeout now (checks_of s r) z any)
        (λ p. n (causes_of_runs rt r.default_timeout now (checks_of s r) p)))

  abbrev Returned : Type 0
  Returned =
      (t : Time) × (results : List CheckResult) × (emitted : List Emission) × (check_all rt features
          s r now
        ≡ done t (results, emitted))

  returned : AllAnswer r.default_timeout now (checks_of s r) → Returned
  returned h =
      let (t, results, e, reports, soon) = check_all-Reports rt features s r now h in
      (t, results, _, e)

  returns_or_hangs :
      {t : Time} {rs : List CheckResult × List Emission}
      → check_all rt features s r now ≡ hangs
      → ¬ (check_all rt features s r now ≡ done t rs)
  returns_or_hangs e e' = cc

  two_ends :
      AllAnswer r.default_timeout now (checks_of s r)
      → ¬ Stuck r.default_timeout now (checks_of s r)
  two_ends all stuck =
      let (t, rs, em, ran) = returned all in returns_or_hangs (check_all-Stuck stuck) ran

  -- `check_all` returns exactly if each check answers: it completes, or a deadline cuts it off. It
  -- unwinds exactly if some check unwinds before its deadline. It never ends exactly if there is no
  -- deadline, some check never completes, and none unwinds.
  pub check_all-Ends :
      (((t : Time) × (results : List CheckResult) × (emitted : List Emission) × (check_all rt
              features s r now
            ≡ done t (results, emitted)))
        ↔ AllAnswer r.default_timeout now (checks_of s r))
      × (((t : Time) × (check_all rt features s r now ≡ panicked t))
          ↔ AnyUnwinds r.default_timeout now (checks_of s r))
      × ((check_all rt features s r now ≡ hangs) ↔ (
          AnyStuck r.default_timeout now (checks_of s r)
          × (¬ AnyUnwinds r.default_timeout now (checks_of s r))))
  check_all-Ends = go (classify r.default_timeout now (checks_of s r))
    where
      go :
          Class r.default_timeout now (checks_of s r)
          → (Returned ↔ AllAnswer r.default_timeout now (checks_of s r))
            × (((t : Time) × (check_all rt features s r now ≡ panicked t))
                ↔ AnyUnwinds r.default_timeout now (checks_of s r))
            × ((check_all rt features s r now ≡ hangs)
                ↔ Stuck r.default_timeout now (checks_of s r))
      go (inl all) =
          let (t, rs, em, ran) = returned all in
          let n = none_unwinds r.default_timeout now (checks_of s r) all in
          (
            (λ x. all, λ x. (t, rs, em, ran)),
            (λ (u, e). cc, λ x. absurd (n x)),
            (λ e. cc, λ x. absurd (returns_or_hangs (check_all-Stuck x) ran)),
          )
      go (inr (inl unwinds)) =
          let (t, ran) = check_all-panicked rt features s r now unwinds in
          (
            (
              λ (u, rs, em, e). cc,
              λ x. absurd (none_unwinds r.default_timeout now (checks_of s r) x unwinds),
            ),
            (λ x. unwinds, λ x. (t, ran)),
            (λ e. cc, λ (x, n). absurd (n unwinds)),
          )
      go (inr (inr stuck)) =
          let ran = check_all-Stuck stuck in
          (
            (λ (u, rs, em, e). cc, λ x. absurd (two_ends x stuck)),
            (λ (u, e). cc, λ x. absurd (stuck.1 x)),
            (λ e. stuck, λ x. ran),
          )

  -- A sweep that has returned has one result for each check, each the one to report.
  pub check_all-AllReport :
      (t : Time) (results : List CheckResult) (emitted : List Emission)
      → check_all rt features s r now ≡ done t (results, emitted)
      → AllReport rt.lag r.default_timeout now (checks_of s r) results
        × EndsBy (now + r.default_timeout + rt.lag) r.default_timeout t
  check_all-AllReport t results emitted ran =
      let (u, rs, e, reports, soon) =
        check_all-Reports rt features s r now (check_all-Ends.0.0 (t, results, emitted, ran)) in
      let same : rs ≡ results = cc in
      let same' : u ≡ t = cc in (rw same at reports, rw same' at soon)
