-- ===== src/Metrics/Buckets.antt =====
-- src/metrics.rs, the buckets of a histogram: they are cumulative.
use healthkit.Base.{ℕ, ◌*◌, ◌^◌, ◌≤◌, ◌≡◌, refl, List, [], ◌∷◌, map, leb, if◌then◌else◌, arith}
use healthkit.Duration.{Duration}
use healthkit.Metrics.Floats.{Float, IsBound}
use healthkit.Metrics.Render.{latency_buckets, bucket_count}

-- The counts never fall, and stay within a bound.
abbrev pub IsCumulative : ℕ → ℕ → List ℕ → Type 0
IsCumulative least most [] = least ≤ most
IsCumulative least most (n ∷ ns) = (least ≤ n) × IsCumulative n most ns

module _ (f : Float) (d : Duration) where
  open f use {lit, as_secs_f64, secs_le_lit}

  pub count_of :
      (m k : ℕ)
      → IsBound m k
      → bucket_count f (as_secs_f64 d) (lit m k) ≡ (if leb (d * 10 ^ k) (m * 10 ^ 9) then 1 else 0)
  count_of m k h = rw (secs_le_lit d m k h) refl

  -- The counts of the buckets of one duration never fall from a bucket to the next, and the last of
  -- them is at most the count of the `+Inf` bucket, which is one.
  pub latency_buckets-IsCumulative :
      IsCumulative 0 1 (map (bucket_count f (as_secs_f64 d)) (latency_buckets f))
  unfolding latency_buckets
  latency_buckets-IsCumulative =
      rw
        (
          count_of 5 3 (omega arith),
          count_of 1 2 (omega arith),
          count_of 25 3 (omega arith),
          count_of 5 2 (omega arith),
          count_of 1 1 (omega arith),
          count_of 25 2 (omega arith),
          count_of 5 1 (omega arith),
          count_of 1 0 (omega arith),
          count_of 25 1 (omega arith),
          count_of 5 0 (omega arith),
          count_of 10 0 (omega arith),
        )
        (ground arith)
