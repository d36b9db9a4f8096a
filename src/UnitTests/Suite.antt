-- ===== src/UnitTests/Suite.antt =====
-- src/registry.rs, its unit tests together.
use healthkit.Base.{◌<◌, ◌≡◌, true, List, [], ◌∷◌, All}
use healthkit.Async.{Time, Async}
use healthkit.Async.Runtime.{Runtime}
use healthkit.Duration.{from_millis}
use healthkit.Registry.{Features}
use healthkit.UnitTests.Harness.{Sleep, Passes, ◌&◌}
use healthkit.UnitTests.InRuntime.{
  add_check_async_is_safe_inside_a_current_thread_runtime, add_check_async-Passes,
  add_check_to_group_async_is_safe_inside_a_current_thread_runtime, add_check_to_group_async-Passes,
  add_check_async_registrations_are_visible_to_probes_with_timeouts,
  add_check_async_with_timeouts-Passes,
}
use healthkit.UnitTests.Sweeping.{
  checks_run_concurrently_slow_check_does_not_delay_others, concurrently-Passes,
  per_check_timeout_fires_and_captures_message, per_check_timeout-Passes,
  zero_timeout_disables_deadline, zero_timeout-Passes,
  group_checks_respect_timeout_and_message_capture, group_timeout-Passes,
}
use healthkit.UnitTests.Grouping.{
  default_timeout_is_five_seconds, default_timeout-Passes, check_group_runs_only_grouped_checks,
  check_group-Passes, registry_new_and_add_check, registry_new-Passes, registry_add_multiple_checks,
  add_multiple-Passes,
}
use healthkit.UnitTests.Statuses.{
  failing_check_message_captures_error_detail, failing_check-Passes,
  registry_check_liveness_no_checks, liveness_no_checks-Passes, registry_check_readiness_mixed,
  readiness_mixed-Passes, registry_check_liveness_mixed_reports_worst_status, liveness_mixed-Passes,
  registry_check_readiness_failing_reports_unhealthy_with_details, readiness_failing-Passes,
  registry_default_is_empty_and_healthy, registry_default-Passes,
  registry_check_with_error_returns_unhealthy, check_with_error-Passes,
}

module _ (rt : Runtime) (features : Features) (timer : Sleep rt.lag) where
  -- The tests, in the order of the file.
  abbrev pub registry_tests : List (Async (Unit {0}))
  registry_tests =
      add_check_async_is_safe_inside_a_current_thread_runtime rt features
      ∷ add_check_to_group_async_is_safe_inside_a_current_thread_runtime rt features
      ∷ add_check_async_registrations_are_visible_to_probes_with_timeouts rt features timer
      ∷ checks_run_concurrently_slow_check_does_not_delay_others rt features timer
      ∷ per_check_timeout_fires_and_captures_message rt features timer
      ∷ zero_timeout_disables_deadline rt features timer
      ∷ failing_check_message_captures_error_detail rt features
      ∷ check_group_runs_only_grouped_checks rt features
      ∷ group_checks_respect_timeout_and_message_capture rt features timer
      ∷ default_timeout_is_five_seconds
      ∷ registry_new_and_add_check rt features
      ∷ registry_add_multiple_checks rt features
      ∷ registry_check_liveness_no_checks rt features
      ∷ registry_check_readiness_mixed rt features
      ∷ registry_check_liveness_mixed_reports_worst_status rt features
      ∷ registry_check_readiness_failing_reports_unhealthy_with_details rt features
      ∷ registry_default_is_empty_and_healthy rt features
      ∷ registry_check_with_error_returns_unhealthy rt features
      ∷ []

  -- On each runtime that takes blocking tasks and of which the timer lags by less than 400
  -- milliseconds, each unit test of the registry ends, whenever it is started, and no assertion of
  -- it fails.
  pub registry_tests-Passes :
      (now : Time)
      → ((t : Time) → rt.accepts t ≡ true)
      → rt.lag < from_millis 400
      → All (λ test. Passes (test now)) registry_tests
  registry_tests-Passes now up short =
      add_check_async-Passes rt features up now
      & add_check_to_group_async-Passes rt features up now
      & add_check_async_with_timeouts-Passes rt features up now timer
      & concurrently-Passes rt features timer up now short
      & per_check_timeout-Passes rt features timer up now short
      & zero_timeout-Passes rt features timer up now
      & failing_check-Passes rt features up now
      & check_group-Passes rt features up now
      & group_timeout-Passes rt features timer up now
      & default_timeout-Passes now
      & registry_new-Passes rt features up now
      & add_multiple-Passes rt features up now
      & liveness_no_checks-Passes rt features up now
      & readiness_mixed-Passes rt features up now
      & liveness_mixed-Passes rt features up now
      & readiness_failing-Passes rt features up now
      & registry_default-Passes rt features up now
      & check_with_error-Passes rt features up now
      & tt
