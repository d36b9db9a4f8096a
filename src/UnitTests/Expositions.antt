-- ===== src/UnitTests/Expositions.antt =====
-- src/metrics.rs, the unit tests of the exposition, over numbers that are exact.
use healthkit.Base.{
  ℕ, zero, suc, refl, Bool, true, false, not, ◌&&◌, ◌||◌, ◌-◌, length, ◌==◌, Text, codes, List, [],
  ◌∷◌, ◌++◌, Option, none, some, ltb, if◌then◌else◌,
}
use healthkit.Async.{Async, pure, ◌>>=◌}
use healthkit.Duration.{from_millis, decimal}
use healthkit.Types.{HealthStatus, healthy, degraded, unhealthy, CheckResult}
use healthkit.Metrics.{render_prometheus}
use healthkit.Metrics.Exact.{exact}
use healthkit.Registry.{text_eq}
use healthkit.UnitTests.Harness.{◌>>◌, assert, unwrap_some, Passes}

unfoldable pub starts_with : Text → Text → Bool
starts_with [] s = true
starts_with (c ∷ p) [] = false
starts_with (c ∷ p) (d ∷ s) = c == d && starts_with p s

-- `str::find`: the least index at which the pattern stands.
unfoldable pub find_from : ℕ → Text → Text → Option ℕ
unfolding starts_with
find_from i p [] = if starts_with p [] then some i else none
find_from i p (c ∷ s) =
    let rest = find_from (suc i) p s in if starts_with p (c ∷ s) then some i else rest

-- `str::contains`
unfoldable pub contains : Text → Text → Bool
unfolding find_from
contains s p = elim (find_from 0 p s) [ none ↦ false | some i ↦ true ]

unfoldable pub result : Text → HealthStatus → ℕ → CheckResult
result name status millis = record {
  name = name;
  status = status;
  message = none;
  duration = from_millis millis;
}

-- `str::ends_with`
unfoldable pub ends_with : Text → Text → Bool
unfolding text_eq
ends_with p [] = text_eq [] p
ends_with p (c ∷ s) = text_eq (c ∷ s) p || ends_with p s

-- `str::matches(…).count()`: behind a match, the search goes on at its end.
unfoldable pub matches_from : ℕ → Text → Text → ℕ
unfolding starts_with
matches_from skip p [] = 0
matches_from (suc skip) p (c ∷ s) = matches_from skip p s
matches_from zero p (c ∷ s) =
    let behind = matches_from (length p - 1) p s in
    let rest = matches_from zero p s in if starts_with p (c ∷ s) then suc behind else rest

healthy_check_renders_gauge_value_one : Async (Unit {0})
unfolding render_prometheus result contains
healthy_check_renders_gauge_value_one =
    let out = render_prometheus exact (result (codes "db") healthy 3 ∷ []) in
    assert (contains out (codes "healthkit_check_healthiness{check=\"db\"} 1\n"))

degraded_check_renders_gauge_value_half : Async (Unit {0})
unfolding render_prometheus result contains
degraded_check_renders_gauge_value_half =
    let out = render_prometheus exact (result (codes "db") degraded 3 ∷ []) in
    assert (contains out (codes "healthkit_check_healthiness{check=\"db\"} 0.5\n"))

unhealthy_check_renders_gauge_value_zero : Async (Unit {0})
unfolding render_prometheus result contains
unhealthy_check_renders_gauge_value_zero =
    let out = render_prometheus exact (result (codes "db") unhealthy 3 ∷ []) in
    assert (contains out (codes "healthkit_check_healthiness{check=\"db\"} 0\n"))

-- The loop over the bucket lines.
in_order : Text → ℕ → List Text → Async (Unit {0})
unfolding find_from
in_order out last [] = pure tt
in_order out last (le ∷ les) = do
  pos ← unwrap_some (find_from 0 (codes "le=\"" ++ le ++ codes "\"}") out)
  assert (ltb last pos)
  in_order out pos les

histogram_buckets_are_cumulative_and_ordered : Async (Unit {0})
unfolding render_prometheus result contains in_order
histogram_buckets_are_cumulative_and_ordered =
    let out = render_prometheus exact (result (codes "db") healthy 3 ∷ []) in
    assert (
      contains out (codes "healthkit_check_duration_seconds_bucket{check=\"db\",le=\"0.005\"} 1\n"))
    >> assert (
        contains out
          (codes "healthkit_check_duration_seconds_bucket{check=\"db\",le=\"0.01\"} 1\n"))
    >> assert (
        contains out
          (codes "healthkit_check_duration_seconds_bucket{check=\"db\",le=\"+Inf\"} 1\n"))
    >> assert (contains out (codes "healthkit_check_duration_seconds_sum{check=\"db\"} 0.003\n"))
    >> assert (contains out (codes "healthkit_check_duration_seconds_count{check=\"db\"} 1\n"))
    >> in_order out 0 (
        codes "0.005"
        ∷ codes "0.01"
        ∷ codes "0.025"
        ∷ codes "0.05"
        ∷ codes "0.1"
        ∷ codes "0.25"
        ∷ codes "0.5"
        ∷ codes "1"
        ∷ codes "2.5"
        ∷ codes "5"
        ∷ codes "10"
        ∷ [])

slow_check_lands_above_low_buckets : Async (Unit {0})
unfolding render_prometheus result contains
slow_check_lands_above_low_buckets =
    let out = render_prometheus exact (result (codes "db") healthy 3000 ∷ []) in
    assert (
      contains out (codes "healthkit_check_duration_seconds_bucket{check=\"db\",le=\"0.005\"} 0\n"))
    >> assert (
        contains out (codes "healthkit_check_duration_seconds_bucket{check=\"db\",le=\"2.5\"} 0\n"))
    >> assert
        (contains out (codes "healthkit_check_duration_seconds_bucket{check=\"db\",le=\"5\"} 1\n"))
    >> assert (contains out (codes "healthkit_check_duration_seconds_sum{check=\"db\"} 3\n"))

header_lines_precede_samples_and_families_do_not_interleave : Async (Unit {0})
unfolding render_prometheus result find_from matches_from
header_lines_precede_samples_and_families_do_not_interleave = do
  let out =
      render_prometheus exact
        (result (codes "db") healthy 1 ∷ result (codes "cache") unhealthy 2 ∷ [])
  help_gauge ← unwrap_some (find_from 0 (codes "# HELP healthkit_check_healthiness") out)
  type_gauge ← unwrap_some (find_from 0 (codes "# TYPE healthkit_check_healthiness gauge\n") out)
  first_gauge ←
      unwrap_some (find_from 0 (codes "healthkit_check_healthiness{check=\"db\"} 1\n") out)
  assert (ltb help_gauge type_gauge && ltb type_gauge first_gauge)
  help_hist ← unwrap_some (find_from 0 (codes "# HELP healthkit_check_duration_seconds") out)
  assert (ltb first_gauge help_hist)
  cache ← unwrap_some (find_from 0 (codes "healthkit_check_healthiness{check=\"cache\"} 0\n") out)
  assert (ltb cache help_hist)
  assert (matches_from 0 (codes "# TYPE") out == 2)
  assert (matches_from 0 (codes "# HELP") out == 2)

empty_results_render_only_headers : Async (Unit {0})
unfolding render_prometheus text_eq
empty_results_render_only_headers =
    let out = render_prometheus exact [] in
    assert (
      text_eq out (
        codes
          "# HELP healthkit_check_healthiness Health status of the check (1 = healthy, 0.5 = degraded, 0 = unhealthy).\n# TYPE healthkit_check_healthiness gauge\n# HELP healthkit_check_duration_seconds Duration of the check execution in seconds.\n# TYPE healthkit_check_duration_seconds histogram\n"))

label_values_are_escaped : Async (Unit {0})
unfolding render_prometheus result contains
label_values_are_escaped =
    let out = render_prometheus exact (result (codes "we\"ird\\na#me") healthy 0 ∷ []) in
    assert (contains out (codes "healthkit_check_healthiness{check=\"we\\\"ird\\\\na#me\"} 1\n"))

output_ends_with_newline : Async (Unit {0})
unfolding render_prometheus result ends_with
output_ends_with_newline =
    let out = render_prometheus exact (result (codes "db") healthy 1 ∷ []) in
    assert (ends_with (codes "\n") out) >> assert (not (ends_with (codes "\n\n") out))

-- All of them pass.
metrics_tests :
    Passes (healthy_check_renders_gauge_value_one 0)
    × Passes (degraded_check_renders_gauge_value_half 0)
    × Passes (unhealthy_check_renders_gauge_value_zero 0)
    × Passes (histogram_buckets_are_cumulative_and_ordered 0)
    × Passes (slow_check_lands_above_low_buckets 0)
    × Passes (header_lines_precede_samples_and_families_do_not_interleave 0)
    × Passes (empty_results_render_only_headers 0)
    × Passes (label_values_are_escaped 0)
    × Passes (output_ends_with_newline 0)
unfolding healthy_check_renders_gauge_value_one degraded_check_renders_gauge_value_half
    unhealthy_check_renders_gauge_value_zero histogram_buckets_are_cumulative_and_ordered
    slow_check_lands_above_low_buckets header_lines_precede_samples_and_families_do_not_interleave
    empty_results_render_only_headers label_values_are_escaped output_ends_with_newline
    render_prometheus result contains ends_with decimal
metrics_tests = (
  (0, refl),
  (0, refl),
  (0, refl),
  (0, refl),
  (0, refl),
  (0, refl),
  (0, refl),
  (0, refl),
  (0, refl),
)
