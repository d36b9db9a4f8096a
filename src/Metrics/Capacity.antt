-- ===== src/Metrics/Capacity.antt =====
-- src/metrics.rs, `render_prometheus`: the capacity that it reserves, against what it writes.
use healthkit.Base.{
  ℕ, ◌+◌, ◌*◌, ◌≤◌, ◌<◌, ◌≡◌, List, [], ◌∷◌, ◌++◌, Text, codes, flat_map, length, length-append,
  arith,
}
use healthkit.Duration.{format}
use healthkit.Types.{CheckResult}
use healthkit.Metrics.Floats.{Float}
use healthkit.Metrics.Render.{
  ln, bucket_count, fmt_float, bucket_line, histogram_lines, escape_label, latency_buckets,
  render_prometheus,
}

-- The argument of `String::with_capacity`.
unfoldable pub capacity : List CheckResult → ℕ
capacity results = length results * 512 + 256

length-ln : (t : Text) → length (ln t) ≡ length t + 1
length-ln t = length-append t _

length-front : (p t : Text) → length p ≤ length (p ++ t)
length-front p t = omega (arith, length-append p t)

length-behind : (p t : Text) → length t ≤ length (p ++ t)
length-behind p t = omega (arith, length-append p t)

-- A list that is written piece by piece, each of at least `k` characters.
length-flat_map :
    {A : Type 0} (f : A → Text) (k : ℕ)
    → ((x : A) → k ≤ length (f x))
    → (xs : List A) → length xs * k ≤ length (flat_map f xs)
unfolding flat_map
length-flat_map f k h [] = omega arith
length-flat_map f k h (x ∷ xs) =
    omega (arith, length-append (f x) (flat_map f xs), h x, length-flat_map f k h xs)

module _ (f : Float) where
  length-bucket_line :
      (name : Text) (secs bucket : f.F) → 57 ≤ length (ln (bucket_line f name secs bucket))
  unfolding bucket_line
  length-bucket_line name secs bucket =
      let count = codes "\"} " ++ format (bucket_count f secs bucket) in
      omega (
        arith,
        length-ln (bucket_line f name secs bucket),
        length-behind name (codes "\",le=\"" ++ (fmt_float f bucket ++ count)),
        length-behind (fmt_float f bucket) count,
      )

  -- The lines of the buckets alone take more than the 512 characters of a result.
  length-histogram_lines : (r : CheckResult) → 627 ≤ length (histogram_lines f r)
  unfolding histogram_lines latency_buckets
  length-histogram_lines r = omega (
    arith,
    length-flat_map (λ b. ln (bucket_line f (escape_label r.name) (f.as_secs_f64 r.duration) b)) 57
        (length-bucket_line (escape_label r.name) (f.as_secs_f64 r.duration)) (latency_buckets f),
    length-front
        (flat_map (λ b. ln (bucket_line f (escape_label r.name) (f.as_secs_f64 r.duration) b))
          (latency_buckets f))
        _,
  )

  -- Whatever the results are, the exposition has more characters than the bytes that are reserved
  -- for it.
  pub length-render_prometheus :
      (results : List CheckResult) → capacity results < length (render_prometheus f results)
  unfolding capacity render_prometheus
  length-render_prometheus results = omega (
    arith,
    length-append {A = ℕ},
    length-flat_map (histogram_lines f) 627 length-histogram_lines results,
  )
