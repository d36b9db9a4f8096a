-- ===== src/Checks/Registered.antt =====
-- src/checks/redis.rs, `register`: a redis check among the checks of a registry.
use healthkit.Base.{◌+◌, ◌≡◌, refl, List, [], ◌∷◌, ◌++◌, none, Text, All-append}
use healthkit.Async.{Time, done}
use healthkit.Async.Runtime.{Runtime}
use healthkit.Types.{CheckResult}
use healthkit.Registry.{
  HealthRegistry, Store, Features, Emission, IsAllocated, checks_of, check_all, add_check,
}
use healthkit.Registry.Reports.{Answers-done, EndsBy}
use healthkit.Registry.Sharing.{Has-add_check_inner}
use healthkit.Registry.Sweeps.{AllAnswer, AllReport, check_all-Reports}
use healthkit.Checks.Redis.{RedisClient, RedisCheck, check, register}
use healthkit.Checks.RedisOutcomes.{check-Returns}

module _ (rt : Runtime) (redis : RedisClient) (self : RedisCheck) (features : Features) (s : Store)
    (r : HealthRegistry) (name : Text) (now : Time) where
  -- If the checks of a registry answer, then after a redis check is registered a sweep still
  -- returns, whatever the redis server and its client do: with the reports of the checks that were
  -- there, then the one of the redis check, and under a deadline at the deadline and the lag of the
  -- timer.
  pub check_all-register :
      IsAllocated s r
      → AllAnswer r.default_timeout now (checks_of s r)
      → (t : Time) × (results : List CheckResult) × (emitted : List Emission) × (check_all rt
            features
            (register rt redis self r name s)
            r
            now
          ≡ done t (results, emitted))
        × AllReport rt.lag r.default_timeout now
            (checks_of s r
              ++ record { name = name; group = none; check_fn = check rt redis self } ∷ [])
            results
        × EndsBy (now + r.default_timeout + rt.lag) r.default_timeout t
  unfolding register add_check
  check_all-register alloc h =
      let (again, e) =
        Has-add_check_inner r none name (check rt redis self) s (checks_of s r) (alloc, refl) in
      let (u, x, ran, by) = check-Returns rt redis self now in
      let (t, results, e', reports, soon) =
        check_all-Reports rt features (register rt redis self r name s) r now (
          rw e (
            All-append _ (checks_of s r) _ h
              (Answers-done r.default_timeout now u (check rt redis self now) x ran, tt))) in
      (t, results, _, e', rw e at reports, soon)
