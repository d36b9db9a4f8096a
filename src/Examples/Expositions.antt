-- ===== src/Examples/Expositions.antt =====
-- src/metrics.rs: expositions of concrete results.
use healthkit.Base.{
  length, ◌<◌, map, ◌≡◌, refl, Text, codes, List, [], ◌∷◌, ◌++◌, none, some, quote,
}
use healthkit.Duration.{from_millis}
use healthkit.Types.{degraded, CheckResult}
use healthkit.Metrics.{escape_label, render_prometheus}
use healthkit.Metrics.Exact.{exact}
use healthkit.Metrics.Escape.{label_value-escape}
use healthkit.Metrics.Capacity.{capacity, length-render_prometheus}
use healthkit.Metrics.Exposition.{label_value, parse_exposition}
use healthkit.Metrics.RoundTrip.{expected, parse-render_prometheus}

abbrev weird : CheckResult
weird = record {
  name = codes "we\"ird\\na#me";
  status = degraded;
  message = none;
  duration = from_millis 3;
}

escape_label_test : escape_label (codes "we\"ird\\na#me") ≡ codes "we\\\"ird\\\\na#me"
unfolding escape_label
escape_label_test = refl

render_empty :
    render_prometheus exact []
    ≡ codes
        "# HELP healthkit_check_healthiness Health status of the check (1 = healthy, 0.5 = degraded, 0 = unhealthy).\n# TYPE healthkit_check_healthiness gauge\n# HELP healthkit_check_duration_seconds Duration of the check execution in seconds.\n# TYPE healthkit_check_duration_seconds histogram\n"
unfolding render_prometheus
render_empty = refl

label_value-escape_example :
    label_value [] healthkit.Base.false (escape_label (codes "a\"b\\") ++ quote ∷ codes ",le")
    ≡ some (codes "a\"b\\", codes ",le")
label_value-escape_example = label_value-escape (codes "a\"b\\") (codes ",le")

parse-render_prometheus_example :
    parse_exposition (render_prometheus exact (weird ∷ [])) ≡ some (expected exact (weird ∷ []))
parse-render_prometheus_example = parse-render_prometheus exact (weird ∷ [])

length-render_prometheus_example :
    capacity (weird ∷ []) < length (render_prometheus exact (weird ∷ []))
length-render_prometheus_example = length-render_prometheus exact (weird ∷ [])

capacity_test : capacity (weird ∷ []) ≡ 768
unfolding capacity
capacity_test = refl
