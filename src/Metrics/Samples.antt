-- ===== src/Metrics/Samples.antt =====
-- src/metrics.rs, `render_prometheus`: the entries that a reader of the exposition finds.
use healthkit.Base.{
  ℕ, ◌≡◌, refl, Bool, true, false, Text, codes, List, [], ◌∷◌, ◌++◌, map, some, leb, if◌then◌else◌,
}
use healthkit.Duration.{format, from_millis}
use healthkit.Types.{HealthStatus, healthy, degraded, unhealthy, CheckResult}
use healthkit.Metrics.Floats.{Float}
use healthkit.Metrics.Render.{
  escape_label, healthiness_value, gauge_line, bucket_line, inf_line, sum_line, count_line,
}
use healthkit.Metrics.Exposition.{
  Entry, sample, parse_line, until, expect, label_value, label_end, labels,
}
use healthkit.Metrics.Escape.{label_value-escape, label_value-plain}

-- The value of the gauge for a status.
abbrev pub gauge_value : HealthStatus → Text
gauge_value healthy = codes "1"
gauge_value degraded = codes "0.5"
gauge_value unhealthy = codes "0"

abbrev pub check_label : Text → List (Text × Text)
check_label name = (codes "check", name) ∷ []

abbrev pub bucket_labels : Text → Text → List (Text × Text)
bucket_labels name bound = (codes "check", name) ∷ (codes "le", bound) ∷ []

abbrev pub gauge_sample : CheckResult → Entry
gauge_sample r =
    sample (codes "healthkit_check_healthiness") (check_label r.name) (gauge_value r.status)

-- The bounds of the buckets as they are written, and in milliseconds.
abbrev pub bounds : List (Text × ℕ)
bounds =
    (codes "0.005", 5)
    ∷ (codes "0.01", 10)
    ∷ (codes "0.025", 25)
    ∷ (codes "0.05", 50)
    ∷ (codes "0.1", 100)
    ∷ (codes "0.25", 250)
    ∷ (codes "0.5", 500)
    ∷ (codes "1", 1000)
    ∷ (codes "2.5", 2500)
    ∷ (codes "5", 5000)
    ∷ (codes "10", 10000)
    ∷ []

-- A bucket counts the observation exactly if it took no longer than the bound.
abbrev pub bucket_sample : CheckResult → Text × ℕ → Entry
bucket_sample r (bound, ms) =
    sample (codes "healthkit_check_duration_seconds_bucket") (bucket_labels r.name bound)
      (if leb r.duration (from_millis ms) then codes "1" else codes "0")

pub count_text : (b : Bool) → format (if b then 1 else 0) ≡ (if b then codes "1" else codes "0")
unfolding format
count_text true = refl
count_text false = refl

module _ (f : Float) where
  open f use {F, lit, as_secs_f64, le, display}

  abbrev pub histogram_samples : CheckResult → List Entry
  histogram_samples r =
      map (bucket_sample r) bounds
      ++ sample (codes "healthkit_check_duration_seconds_bucket")
          (bucket_labels r.name (codes "+Inf")) (codes "1")
        ∷ sample (codes "healthkit_check_duration_seconds_sum") (check_label r.name)
            (display (as_secs_f64 r.duration))
        ∷ sample (codes "healthkit_check_duration_seconds_count") (check_label r.name) (codes "1")
        ∷ []

  pub gauge-parse :
      (r : CheckResult)
      → parse_line (gauge_line f r)
        ≡ some (
            sample
              (codes "healthkit_check_healthiness")
              (check_label r.name)
              (display (healthiness_value f r.status)))
  unfolding gauge_line parse_line until expect label_end labels
  gauge-parse r = rw (label_value-escape r.name) refl

  pub bucket-parse :
      (name : Text) (secs bucket : F)
      → parse_line (bucket_line f (escape_label name) secs bucket)
        ≡ some (
            sample
              (codes "healthkit_check_duration_seconds_bucket")
              (bucket_labels name (display bucket))
              (if le secs bucket then codes "1" else codes "0"))
  unfolding bucket_line parse_line until expect label_end labels
  bucket-parse name secs bucket =
      rw
        (
          label_value-escape name,
          label_value-plain (display bucket) _ (f.display_plain bucket),
          count_text,
        )
        refl

  pub inf-parse :
      (name : Text)
      → parse_line (inf_line (escape_label name))
        ≡ some (
            sample
              (codes "healthkit_check_duration_seconds_bucket")
              (bucket_labels name (codes "+Inf"))
              (codes "1"))
  unfolding inf_line parse_line until expect label_end labels label_value
  inf-parse name = rw (label_value-escape name) refl

  pub sum-parse :
      (name : Text) (secs : F)
      → parse_line (sum_line f (escape_label name) secs)
        ≡ some (
            sample (codes "healthkit_check_duration_seconds_sum") (check_label name) (display secs))
  unfolding sum_line parse_line until expect label_end labels
  sum-parse name secs = rw (label_value-escape name) refl

  pub count-parse :
      (name : Text)
      → parse_line (count_line (escape_label name))
        ≡ some
            (sample (codes "healthkit_check_duration_seconds_count") (check_label name) (codes "1"))
  unfolding count_line parse_line until expect label_end labels
  count-parse name = rw (label_value-escape name) refl
