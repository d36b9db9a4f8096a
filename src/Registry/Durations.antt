-- ===== src/Registry/Durations.antt =====
-- src/registry.rs, `run_one`: how long a result can say that its check took.
use healthkit.Base.{◌+◌, ◌-◌, ◌≤◌, ◌<◌, ◌≡◌, inl, inr, ap, List, [], ◌∷◌, All, arith}
use healthkit.Async.{Time, done}
use healthkit.Async.Runtime.{Runtime}
use healthkit.Duration.{Duration}
use healthkit.Types.{CheckResult}
use healthkit.Registry.Register.{RegisteredCheck, HealthRegistry, Store, checks_of}
use healthkit.Registry.Sweep.{Features, Emission, check_all}
use healthkit.Registry.Reports.{InTime, Reports}
use healthkit.Registry.Sweeps.{AllReport}
use healthkit.Registry.Ends.{check_all-AllReport}

module _ (lag d : Duration) (now : Time) (pos : 0 < d) where
  took : (t : Time) → InTime d now t → t - now ≤ d + lag
  took t (inl z) = omega arith
  took t (inr soon) = omega arith

  Reports-duration :
      (c : RegisteredCheck) (r : CheckResult) → Reports lag d c now r → r.duration ≤ d + lag
  Reports-duration c r (Reports.returned t s e soon eq) =
      rw (ap (λ (x : CheckResult). x.duration) eq) (took t soon)
  Reports-duration c r (Reports.failed t x e soon eq) =
      rw (ap (λ (x : CheckResult). x.duration) eq) (took t soon)
  Reports-duration c r (Reports.timed_out t p late from to eq) =
      rw (ap (λ (x : CheckResult). x.duration) eq) (omega arith)

  AllReport-duration :
      (cs : List RegisteredCheck) (rs : List CheckResult)
      → AllReport lag d now cs rs
      → All (λ r. r.duration ≤ d + lag) rs
  AllReport-duration [] [] h = tt
  AllReport-duration [] (r ∷ rs) h = absurd h
  AllReport-duration (c ∷ cs) [] h = absurd h
  AllReport-duration (c ∷ cs) (r ∷ rs) h = (Reports-duration c r h.0, AllReport-duration cs rs h.1)

-- Under a deadline, no result of a sweep that has returned says that its check took longer than the
-- deadline and the lag of the timer.
pub check_all-duration :
    (rt : Runtime) (features : Features) (s : Store) (r : HealthRegistry) (now t : Time)
    (results : List CheckResult) (emitted : List Emission)
    → 0 < r.default_timeout
    → check_all rt features s r now ≡ done t (results, emitted)
    → All (λ x. x.duration ≤ r.default_timeout + rt.lag) results
check_all-duration rt features s r now t results emitted pos ran =
    AllReport-duration rt.lag r.default_timeout now pos (checks_of s r) results
      (check_all-AllReport rt features s r now t results emitted ran).0
