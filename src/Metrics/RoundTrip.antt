-- ===== src/Metrics/RoundTrip.antt =====
-- src/metrics.rs, `render_prometheus`: a reader of the exposition finds exactly the samples meant.
use native.Mathlib.Decide.{dec_le}
use healthkit.Base.{
  ℕ, ◌+◌, ◌*◌, ◌^◌, ◌<◌, ◌≤◌, ◌≡◌, refl, inl, inr, ◌∙◌, ◌≢◌, Bool, true, false, Text, codes, List,
  [], ◌∷◌, ◌++◌, map, flat_map, some, All, All-append, newline, leb, if◌then◌else◌, arith,
}
use healthkit.Duration.{decimal, from_millis}
use healthkit.Types.{HealthStatus, healthy, degraded, unhealthy, CheckResult}
use healthkit.Metrics.Floats.{Float, IsPlain, IsBound}
use healthkit.Metrics.Render.{
  escape_label, latency_buckets, healthiness_value, gauge_line, bucket_line, inf_line, sum_line,
  count_line, ln, gauge_help, gauge_type, histogram_help, histogram_type, histogram_lines,
  render_prometheus,
}
use healthkit.Metrics.Exposition.{Entry, comment, sample, parse_line, parse_exposition}
use healthkit.Metrics.Exposition.Reads.{
  Reads, Reads-append, Reads-map, Reads-flat_map, Reads-line, parse-Reads,
}
use healthkit.Metrics.Escape.{escape_label_line}
use healthkit.Metrics.Samples.{
  gauge_value, gauge_sample, bounds, bucket_sample, histogram_samples, bucket_labels, count_text,
  gauge-parse, bucket-parse, inf-parse, sum-parse, count-parse,
}

abbrev OneLine : Text → Type 0
OneLine = All (λ c. c ≢ newline)

plain-OneLine : (s : Text) → All IsPlain s → OneLine s
plain-OneLine [] h = tt
plain-OneLine (c ∷ s) h = (h.0.0, plain-OneLine s h.1)

count-OneLine : (b : Bool) → OneLine (if b then codes "1" else codes "0")
count-OneLine true = omega arith
count-OneLine false = omega arith

leb_scale : (d n c : ℕ) → 0 < c → leb (d * c) (n * c) ≡ leb d n
leb_scale d n c h = elim (dec_le d n) [
  | yes p ↦ let q : d * c ≤ n * c = grind arith in ground arith
  | no p ↦
      let q : (n + 1) * c ≤ d * c = let r : n + 1 ≤ d = omega arith in grind arith in
      let r : n * c < d * c = omega arith in ground arith
]

module _ (f : Float) where
  open f use {F, lit, as_secs_f64, le, display}

  display-OneLine : (x : F) → OneLine (display x)
  display-OneLine x = plain-OneLine (display x) (f.display_plain x)

  gauge-OneLine : (r : CheckResult) → OneLine (gauge_line f r)
  unfolding gauge_line
  gauge-OneLine r = All-append _ (codes "healthkit_check_healthiness{check=\"") _ (omega arith) (
      All-append _ (escape_label r.name) _ (escape_label_line r.name)
        (All-append _ (codes "\"} ") _ (omega arith) (display-OneLine _)))

  -- The gauge of each status is written as its decimal.
  gauge_value_lem : (s : HealthStatus) → display (healthiness_value f s) ≡ gauge_value s
  unfolding healthiness_value decimal
  gauge_value_lem healthy = f.display_lit 1 0 (omega arith) (omega arith)
  gauge_value_lem degraded = f.display_lit 5 1 (omega arith) (omega arith)
  gauge_value_lem unhealthy = f.display_lit 0 0 (omega arith) (omega arith)

  gauge-Reads : (r : CheckResult) → Reads (ln (gauge_line f r)) (gauge_sample r ∷ [])
  gauge-Reads r =
      Reads-line (gauge_line f r) (gauge_sample r) (gauge-OneLine r)
        (gauge-parse f r ∙ rw gauge_value_lem)

  bucket-OneLine :
      (name : Text) (secs bucket : F) → OneLine (bucket_line f (escape_label name) secs bucket)
  unfolding bucket_line
  bucket-OneLine name secs bucket = rw count_text (
      All-append _ (codes "healthkit_check_duration_seconds_bucket{check=\"") _ (omega arith) (
        All-append _ (escape_label name) _ (escape_label_line name) (
          All-append _ (codes "\",le=\"") _ (omega arith) (
            All-append _ (display bucket) _ (display-OneLine bucket)
              (All-append _ (codes "\"} ") _ (omega arith) (count-OneLine (le secs bucket)))))))

  inf-OneLine : (name : Text) → OneLine (inf_line (escape_label name))
  unfolding inf_line
  inf-OneLine name =
      All-append _ (codes "healthkit_check_duration_seconds_bucket{check=\"") _ (omega arith)
        (All-append _ (escape_label name) _ (escape_label_line name) (omega arith))

  sum-OneLine : (name : Text) (secs : F) → OneLine (sum_line f (escape_label name) secs)
  unfolding sum_line
  sum-OneLine name secs =
      All-append _ (codes "healthkit_check_duration_seconds_sum{check=\"") _ (omega arith) (
        All-append _ (escape_label name) _ (escape_label_line name)
          (All-append _ (codes "\"} ") _ (omega arith) (display-OneLine secs)))

  count_line-OneLine : (name : Text) → OneLine (count_line (escape_label name))
  unfolding count_line
  count_line-OneLine name =
      All-append _ (codes "healthkit_check_duration_seconds_count{check=\"") _ (omega arith)
        (All-append _ (escape_label name) _ (escape_label_line name) (omega arith))

  abbrev bucket_entry : CheckResult → F → Entry
  bucket_entry r bucket =
      sample (codes "healthkit_check_duration_seconds_bucket")
        (bucket_labels r.name (display bucket))
        (if le (as_secs_f64 r.duration) bucket then codes "1" else codes "0")

  -- A bucket of the code is the bucket meant: its bound is written so, and its count compares so.
  bucket_entry_lem :
      (r : CheckResult) (m k ms : ℕ) (bound : Text)
      → IsBound m k
      → m < 10 ^ 15
      → 0 < 10 ^ k
      → decimal m k ≡ bound
      → m * 10 ^ 9 ≡ from_millis ms * 10 ^ k
      → bucket_entry r (lit m k) ≡ bucket_sample r (bound, ms)
  bucket_entry_lem r m k ms bound is small pos written scaled =
      rw
        (
          f.display_lit m k small is.2,
          written,
          f.secs_le_lit r.duration m k is,
          scaled,
          leb_scale r.duration (from_millis ms) (10 ^ k) pos,
        )
        refl

  buckets_lem :
      (r : CheckResult) → map (bucket_entry r) (latency_buckets f) ≡ map (bucket_sample r) bounds
  unfolding latency_buckets decimal
  buckets_lem r = cc (
    bucket_entry_lem r 5 3 5 (codes "0.005") (inl (omega arith), omega arith, omega arith)
        (omega arith) (omega arith) refl refl,
    bucket_entry_lem r 1 2 10 (codes "0.01") (inl (omega arith), omega arith, omega arith)
        (omega arith) (omega arith) refl refl,
    bucket_entry_lem r 25 3 25 (codes "0.025") (inl (omega arith), omega arith, omega arith)
        (omega arith) (omega arith) refl refl,
    bucket_entry_lem r 5 2 50 (codes "0.05") (inl (omega arith), omega arith, omega arith)
        (omega arith) (omega arith) refl refl,
    bucket_entry_lem r 1 1 100 (codes "0.1") (inl (omega arith), omega arith, omega arith)
        (omega arith) (omega arith) refl refl,
    bucket_entry_lem r 25 2 250 (codes "0.25") (inl (omega arith), omega arith, omega arith)
        (omega arith) (omega arith) refl refl,
    bucket_entry_lem r 5 1 500 (codes "0.5") (inl (omega arith), omega arith, omega arith)
        (omega arith) (omega arith) refl refl,
    bucket_entry_lem r 1 0 1000 (codes "1") (inr (omega arith), omega arith, omega arith)
        (omega arith) (omega arith) refl refl,
    bucket_entry_lem r 25 1 2500 (codes "2.5") (inr (omega arith), omega arith, omega arith)
        (omega arith) (omega arith) refl refl,
    bucket_entry_lem r 5 0 5000 (codes "5") (inr (omega arith), omega arith, omega arith)
        (omega arith) (omega arith) refl refl,
    bucket_entry_lem r 10 0 10000 (codes "10") (inr (omega arith), omega arith, omega arith)
        (omega arith) (omega arith) refl refl,
  )

  histogram-Reads : (r : CheckResult) → Reads (histogram_lines f r) (histogram_samples f r)
  unfolding histogram_lines
  histogram-Reads r =
      let name = escape_label r.name in
      let secs = as_secs_f64 r.duration in
      Reads-append (flat_map (λ bucket. ln (bucket_line f name secs bucket)) (latency_buckets f)) _
        (map (bucket_sample r) bounds) _
        (rw (← buckets_lem r) (
          Reads-map _ (bucket_entry r)
            (λ bucket.
              Reads-line _ _ (bucket-OneLine r.name secs bucket)
                (bucket-parse f r.name secs bucket))
            (latency_buckets f)))
        (Reads-append (ln (inf_line name)) _ (_ ∷ []) _
          (Reads-line _ _ (inf-OneLine r.name) (inf-parse f r.name))
          (Reads-append (ln (sum_line f name secs)) _ (_ ∷ []) _
            (Reads-line _ _ (sum-OneLine r.name secs) (sum-parse f r.name secs))
            (Reads-line _ _ (count_line-OneLine r.name) (count-parse f r.name))))

  -- What a reader of the exposition is to find: the gauge family with a sample for each result, in
  -- order, and then the histogram family with the buckets, sum and count of each result.
  abbrev pub expected : List CheckResult → List Entry
  expected results =
      comment gauge_help
      ∷ comment gauge_type
      ∷ (map gauge_sample results
          ++ (comment histogram_help
              ∷ comment histogram_type
              ∷ flat_map (histogram_samples f) results))

  help_Reads :
      (line : Text)
      → OneLine line
      → parse_line line ≡ some (comment line)
      → Reads (ln line) (comment line ∷ [])
  help_Reads line h p = Reads-line line (comment line) h p

  -- Whatever the names, statuses and durations of the results, the exposition is well formed, and
  -- read back it has exactly the expected families and samples: each name unescaped is the name of
  -- its check, the gauge is 1, 0.5 or 0, and a bucket counts exactly if the duration is within its
  -- bound.
  pub parse-render_prometheus :
      (results : List CheckResult)
      → parse_exposition (render_prometheus f results) ≡ some (expected results)
  unfolding render_prometheus parse_line
  parse-render_prometheus results = parse-Reads _ _ (
      Reads-append (ln gauge_help) _ (_ ∷ []) _ (help_Reads gauge_help (omega arith) refl) (
        Reads-append (ln gauge_type) _ (_ ∷ []) _ (help_Reads gauge_type (omega arith) refl) (
          Reads-append (flat_map (λ r. ln (gauge_line f r)) results) _ (map gauge_sample results) _
            (Reads-map _ gauge_sample gauge-Reads results)
            (Reads-append (ln histogram_help) _ (_ ∷ []) _
              (help_Reads histogram_help (omega arith) refl)
              (Reads-append (ln histogram_type) _ (_ ∷ []) _
                (help_Reads histogram_type (omega arith) refl)
                (Reads-flat_map (histogram_lines f) (histogram_samples f) histogram-Reads
                  results))))))
