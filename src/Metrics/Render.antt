-- ===== src/Metrics/Render.antt =====
-- src/metrics.rs: `render_prometheus` and what it calls.
use healthkit.Base.{
  ℕ, Text, codes, List, [], ◌∷◌, ◌++◌, flat_map, newline, quote, backslash, ◌==◌, if◌then◌else◌,
}
use healthkit.Duration.{format}
use healthkit.Types.{HealthStatus, healthy, degraded, unhealthy, CheckResult}
use healthkit.Metrics.Floats.{Float}

-- One round of the loop of `escape_label`.
unfoldable pub escape_char : ℕ → Text
escape_char c =
    if c == backslash
    then backslash ∷ backslash ∷ []
    else if c == quote
    then backslash ∷ quote ∷ []
    else if c == newline
    then backslash ∷ b'n' ∷ []
    else c ∷ []

unfoldable pub escape_into : Text → Text → Text
unfolding escape_char
escape_into out [] = out
escape_into out (c ∷ s) = escape_into (out ++ escape_char c) s

unfoldable pub escape_label : Text → Text
unfolding escape_into
escape_label value = escape_into [] value

-- A line and its newline.
abbrev pub ln : Text → Text
ln line = line ++ newline ∷ []

abbrev pub gauge_help : Text
gauge_help =
    codes
      "# HELP healthkit_check_healthiness Health status of the check (1 = healthy, 0.5 = degraded, 0 = unhealthy)."

abbrev pub gauge_type : Text
gauge_type = codes "# TYPE healthkit_check_healthiness gauge"

abbrev pub histogram_help : Text
histogram_help =
    codes "# HELP healthkit_check_duration_seconds Duration of the check execution in seconds."

abbrev pub histogram_type : Text
histogram_type = codes "# TYPE healthkit_check_duration_seconds histogram"

unfoldable pub inf_line : Text → Text
inf_line name =
    codes "healthkit_check_duration_seconds_bucket{check=\"" ++ (name ++ codes "\",le=\"+Inf\"} 1")

unfoldable pub count_line : Text → Text
count_line name = codes "healthkit_check_duration_seconds_count{check=\"" ++ (name ++ codes "\"} 1")

module _ (f : Float) where
  open f use {F, lit, as_secs_f64, le, display}

  -- The upper bounds of the buckets, in seconds.
  unfoldable pub latency_buckets : List F
  latency_buckets =
      lit 5 3
      ∷ lit 1 2
      ∷ lit 25 3
      ∷ lit 5 2
      ∷ lit 1 1
      ∷ lit 25 2
      ∷ lit 5 1
      ∷ lit 1 0
      ∷ lit 25 1
      ∷ lit 5 0
      ∷ lit 10 0
      ∷ []

  unfoldable pub healthiness_value : HealthStatus → F
  healthiness_value healthy = lit 1 0
  healthiness_value degraded = lit 5 1
  healthiness_value unhealthy = lit 0 0

  unfoldable pub fmt_float : F → Text
  fmt_float value = display value

  -- The lines of `render_prometheus`, each without its newline.
  unfoldable pub gauge_line : CheckResult → Text
  unfolding healthiness_value fmt_float
  gauge_line result =
      codes "healthkit_check_healthiness{check=\""
      ++ (escape_label result.name ++ (codes "\"} " ++ fmt_float (healthiness_value result.status)))

  -- `u64::from(secs <= bucket)`
  abbrev pub bucket_count : F → F → ℕ
  bucket_count secs bucket = if le secs bucket then 1 else 0

  unfoldable pub bucket_line : Text → F → F → Text
  unfolding fmt_float
  bucket_line name secs bucket =
      let count = bucket_count secs bucket in
      codes "healthkit_check_duration_seconds_bucket{check=\""
      ++ (name ++ (codes "\",le=\"" ++ (fmt_float bucket ++ (codes "\"} " ++ format count))))

  unfoldable pub sum_line : Text → F → Text
  unfolding fmt_float
  sum_line name secs =
      codes "healthkit_check_duration_seconds_sum{check=\""
      ++ (name ++ (codes "\"} " ++ fmt_float secs))

  -- The second loop's round: the histogram of one result.
  unfoldable pub histogram_lines : CheckResult → Text
  unfolding latency_buckets bucket_line inf_line sum_line count_line
  histogram_lines result =
      let name = escape_label result.name in
      let secs = as_secs_f64 result.duration in
      flat_map (λ bucket. ln (bucket_line name secs bucket)) latency_buckets
      ++ (ln (inf_line name) ++ (ln (sum_line name secs) ++ ln (count_line name)))

  unfoldable pub render_prometheus : List CheckResult → Text
  unfolding gauge_line histogram_lines escape_label flat_map
  render_prometheus results =
      ln gauge_help
      ++ (ln gauge_type
          ++ (flat_map (λ r. ln (gauge_line r)) results
              ++ (ln histogram_help ++ (ln histogram_type ++ flat_map histogram_lines results))))
