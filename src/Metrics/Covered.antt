-- ===== src/Metrics/Covered.antt =====
-- src/registry.rs and src/metrics.rs: the results of a sweep, and the finite buckets.
use healthkit.Base.{◌+◌, ◌*◌, ◌^◌, ◌≤◌, ◌<◌, ◌≡◌, refl, ◌∙◌, true, List, [], ◌∷◌, All, leb, arith}
use healthkit.Async.{Time, done}
use healthkit.Async.Runtime.{Runtime}
use healthkit.Duration.{Duration, from_secs}
use healthkit.Types.{CheckResult}
use healthkit.Registry.{HealthRegistry, Store, Features, Emission, check_all}
use healthkit.Registry.Durations.{check_all-duration}
use healthkit.Metrics.Floats.{Float}
use healthkit.Metrics.Render.{latency_buckets, bucket_count}
use healthkit.Metrics.Buckets.{count_of}

module _ (f : Float) where
  open f use {F, lit, as_secs_f64}

  counted : (d : Duration) → d ≤ from_secs 10 → bucket_count f (as_secs_f64 d) (lit 10 0) ≡ 1
  counted d h =
      let within : leb (d * 10 ^ 0) (10 * 10 ^ 9) ≡ true = ground arith in
      count_of f d 10 0 (omega arith) ∙ rw within refl

  -- The last of the buckets counts it.
  abbrev pub CountsInLast : F → List F → Type 0
  CountsInLast secs [] = ⊥
  CountsInLast secs (b ∷ []) = bucket_count f secs b ≡ 1
  CountsInLast secs (b ∷ c ∷ bs) = CountsInLast secs (c ∷ bs)

  covered : (d : Duration) → d ≤ from_secs 10 → CountsInLast (as_secs_f64 d) (latency_buckets f)
  unfolding latency_buckets
  covered d h = counted d h

  all_counted :
      (limit : Duration) (rs : List CheckResult)
      → limit ≤ from_secs 10
      → All (λ r. r.duration ≤ limit) rs
      → All (λ r. CountsInLast (as_secs_f64 r.duration) (latency_buckets f)) rs
  all_counted limit [] le h = tt
  all_counted limit (r ∷ rs) le h =
      (covered r.duration (omega (arith, h.0)), all_counted limit rs le h.1)

  -- Under a deadline of at most ten seconds less the lag of the timer, each result of a sweep that
  -- has returned counts in the last of the latency buckets: none of them is beyond the buckets.
  pub check_all-covered :
      (rt : Runtime) (features : Features) (s : Store) (r : HealthRegistry) (now t : Time)
      (results : List CheckResult) (emitted : List Emission)
      → 0 < r.default_timeout
      → r.default_timeout + rt.lag ≤ from_secs 10
      → check_all rt features s r now ≡ done t (results, emitted)
      → All (λ x. CountsInLast (as_secs_f64 x.duration) (latency_buckets f)) results
  check_all-covered rt features s r now t results emitted pos short ran =
      all_counted (r.default_timeout + rt.lag) results short
        (check_all-duration rt features s r now t results emitted pos ran)
