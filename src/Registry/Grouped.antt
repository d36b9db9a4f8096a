-- ===== src/Registry/Grouped.antt =====
-- src/registry.rs, `check_group`: its results, by the group that each check was added to.
use healthkit.Base.{◌+◌, ◌≡◌, ◌≢◌, inl, inr, Text, List, [], ◌∷◌, some, false, All, Bool-cases}
use healthkit.Async.{Time, done}
use healthkit.Async.Runtime.{Runtime}
use healthkit.Duration.{Duration}
use healthkit.Types.{CheckResult}
use healthkit.Registry.Register.{RegisteredCheck, HealthRegistry, Store, checks_of}
use healthkit.Registry.Sweep.{in_group, members, check_group}
use healthkit.Registry.Groups.{in_group_iff}
use healthkit.Registry.Reports.{EndsBy, Answers, Reports}
use healthkit.Registry.Sweeps.{AllAnswer, AllReport, check_group-members}

module _ (group : Text) where
  -- A property of the checks that were added to the group.
  abbrev pub Within : (RegisteredCheck → Type 0) → List RegisteredCheck → Type 0
  Within P = All (λ c. c.group ≡ some group → P c)

  -- A result for each check that was added to the group, and for no other one.
  pub data GroupReports (lag d : Duration) (now : Time)
      : List RegisteredCheck → List CheckResult → Type 0 where
    none_left : GroupReports lag d now [] []
    inside :
        {c : RegisteredCheck} {r : CheckResult} {cs : List RegisteredCheck} {rs : List CheckResult}
        → c.group ≡ some group
        → Reports lag d c now r
        → GroupReports lag d now cs rs
        → GroupReports lag d now (c ∷ cs) (r ∷ rs)
    outside :
        {c : RegisteredCheck} {cs : List RegisteredCheck} {rs : List CheckResult}
        → c.group ≢ some group
        → GroupReports lag d now cs rs
        → GroupReports lag d now (c ∷ cs) rs

  outside_of : (c : RegisteredCheck) → in_group group c.group ≡ false → c.group ≢ some group
  outside_of c out e = let kept = (in_group_iff group c.group).1 e in cc

  -- What holds of each check of the group holds of each that the filter keeps.
  All-members :
      (P : RegisteredCheck → Type 0) (cs : List RegisteredCheck)
      → Within P cs
      → All P (members group cs)
  unfolding members
  All-members P [] h = tt
  All-members P (c ∷ cs) h = elim (Bool-cases (in_group group c.group)) [
    | inl kept ↦ rw kept (h.0 ((in_group_iff group c.group).0 kept), All-members P cs h.1)
    | inr out ↦ rw out (All-members P cs h.1)
  ]

  GroupReports-cons :
      (lag d : Duration) (now : Time) (c : RegisteredCheck) (cs : List RegisteredCheck)
      (rs : List CheckResult)
      → c.group ≡ some group
      → ((rs : List CheckResult)
          → AllReport lag d now (members group cs) rs
          → GroupReports lag d now cs rs)
      → AllReport lag d now (c ∷ members group cs) rs
      → GroupReports lag d now (c ∷ cs) rs
  GroupReports-cons lag d now c cs [] e rest h = absurd h
  GroupReports-cons lag d now c cs (r ∷ rs) e rest h = GroupReports.inside e h.0 (rest rs h.1)

  GroupReports-nil :
      (lag d : Duration) (now : Time) (rs : List CheckResult)
      → AllReport lag d now [] rs
      → GroupReports lag d now [] rs
  GroupReports-nil lag d now [] h = GroupReports.none_left
  GroupReports-nil lag d now (r ∷ rs) h = absurd h

  pub AllReport-members :
      (lag d : Duration) (now : Time) (cs : List RegisteredCheck) (rs : List CheckResult)
      → AllReport lag d now (members group cs) rs
      → GroupReports lag d now cs rs
  unfolding members
  AllReport-members lag d now [] rs h = GroupReports-nil lag d now rs h
  AllReport-members lag d now (c ∷ cs) rs h = elim (Bool-cases (in_group group c.group)) [
    | inl kept ↦
        GroupReports-cons lag d now c cs rs ((in_group_iff group c.group).0 kept)
          (λ rs. AllReport-members lag d now cs rs) (rw kept at h)
    | inr out ↦
        GroupReports.outside (outside_of c out) (AllReport-members lag d now cs rs (rw out at h))
  ]

module _ (rt : Runtime) (s : Store) (r : HealthRegistry) (group : Text) (now : Time) where
  -- Each check that was added to the group answers when it is started at `now`.
  abbrev pub GroupAnswers : Type 0
  GroupAnswers = Within group (λ c. Answers r.default_timeout now (c.check_fn now)) (checks_of s r)

  pub AllAnswer-members :
      GroupAnswers → AllAnswer r.default_timeout now (members group (checks_of s r))
  AllAnswer-members h = All-members group _ (checks_of s r) h

  -- If each check that was added to the group answers, whatever the other checks do, then
  -- `check_group` returns one result for each check that was added to the group and none for any
  -- other, in the order of registration, each the one to report, and under a deadline it ends at
  -- the deadline and the lag of the timer.
  pub check_group-Reports :
      GroupAnswers
      → (t : Time) × (results : List CheckResult) × (check_group rt s r group now ≡ done t results)
        × GroupReports group rt.lag r.default_timeout now (checks_of s r) results
        × EndsBy (now + r.default_timeout + rt.lag) r.default_timeout t
  check_group-Reports h =
      let (t, results, e, reports, soon) =
        check_group-members rt s r group now (AllAnswer-members h) in
      (t, results, e, AllReport-members group _ _ now (checks_of s r) results reports, soon)
