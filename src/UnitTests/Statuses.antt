-- ===== src/UnitTests/Statuses.antt =====
-- src/registry.rs, the unit tests of the statuses and messages that sweeps report.
use healthkit.Base.{◌≡◌, refl, inr, codes, [], ◌∷◌, ok, err, true, length, ◌==◌, arith}
use healthkit.Async.{Time, Async, pure, ◌>>=◌}
use healthkit.Async.Runtime.{Runtime}
use healthkit.Duration.{from_secs, debug}
use healthkit.Types.{healthy, degraded, unhealthy, is_healthy}
use healthkit.Errors.{dependency_unavailable, check_failed, check_timed_out, error_text}
use healthkit.Registry.{
  Store, Features, add_check, fold_outcome, new, default, check_all, check_liveness,
  check_readiness, aggregate, text_eq,
}
use healthkit.Registry.Latest.{check_all-latest, check_liveness-latest, check_readiness-latest}
use healthkit.UnitTests.Harness.{
  ◌>>◌, assert, unwrap, unwrap_some, first, find_name, status_eq, message_is, is_none, is_empty,
  blocking, blocking-done, Passes, Passes-continue, made, empty,
}

module _ (rt : Runtime) (features : Features) where
  unfoldable pub failing_check_message_captures_error_detail : Async (Unit {0})
  unfolding new add_check check_readiness blocking text_eq
  failing_check_message_captures_error_detail = do
    let (registry, s) = new []
    s ←
        blocking rt
          (λ s.
            add_check registry (codes "cache")
              (pure (err (dependency_unavailable (codes "connection refused"))))
              (add_check registry (codes "db") (pure (ok healthy)) s))
          s
    (r, emitted) ← check_readiness rt features s registry
    (status, results) ← unwrap r
    assert (status_eq status unhealthy)
    cache ← unwrap_some (find_name (codes "cache") results)
    assert (status_eq cache.status unhealthy)
    assert (message_is cache.message (codes "dependency unavailable: connection refused"))
    db ← unwrap_some (find_name (codes "db") results)
    assert (is_none db.message)

  unfoldable pub registry_check_liveness_no_checks : Async (Unit {0})
  unfolding new check_liveness is_healthy
  registry_check_liveness_no_checks = do
    let (registry, s) = new []
    (r, emitted) ← check_liveness rt features s registry
    status ← unwrap r
    assert (is_healthy status)

  unfoldable pub registry_check_readiness_mixed : Async (Unit {0})
  unfolding new add_check check_readiness blocking
  registry_check_readiness_mixed = do
    let (registry, s) = new []
    s ←
        blocking rt
          (λ s.
            add_check registry (codes "degraded") (pure (ok degraded))
              (add_check registry (codes "ok") (pure (ok healthy)) s))
          s
    (r, emitted) ← check_readiness rt features s registry
    (status, results) ← unwrap r
    assert (status_eq status degraded)
    assert (length results == 2)

  unfoldable pub registry_check_liveness_mixed_reports_worst_status : Async (Unit {0})
  unfolding new add_check check_liveness blocking
  registry_check_liveness_mixed_reports_worst_status = do
    let (registry, s) = new []
    s ←
        blocking rt
          (λ s.
            add_check registry (codes "failing") (pure (err (dependency_unavailable (codes "db"))))
              (add_check registry (codes "degraded") (pure (ok degraded))
                (add_check registry (codes "ok") (pure (ok healthy)) s)))
          s
    (r, emitted) ← check_liveness rt features s registry
    status ← unwrap r
    assert (status_eq status unhealthy)

  unfoldable pub registry_check_readiness_failing_reports_unhealthy_with_details : Async (Unit {0})
  unfolding new add_check check_readiness blocking text_eq
  registry_check_readiness_failing_reports_unhealthy_with_details = do
    let (registry, s) = new []
    s ←
        blocking rt
          (λ s.
            add_check registry (codes "failing") (pure (err (check_timed_out (from_secs 2))))
              (add_check registry (codes "ok") (pure (ok healthy)) s))
          s
    (r, emitted) ← check_readiness rt features s registry
    (status, results) ← unwrap r
    assert (status_eq status unhealthy)
    failing ← unwrap_some (find_name (codes "failing") results)
    assert (status_eq failing.status unhealthy)
    assert (message_is failing.message (codes "health check timed out after 2s"))

  unfoldable pub registry_default_is_empty_and_healthy : Async (Unit {0})
  unfolding default check_all check_liveness check_readiness
  registry_default_is_empty_and_healthy = do
    let (registry, s) = default []
    (results, emitted) ← check_all rt features s registry
    assert (is_empty results)
    (r, emitted) ← check_liveness rt features s registry
    status ← unwrap r
    assert (status_eq status healthy)
    (r, emitted) ← check_readiness rt features s registry
    (status, results) ← unwrap r
    assert (status_eq status healthy)
    assert (is_empty results)

  unfoldable pub registry_check_with_error_returns_unhealthy : Async (Unit {0})
  unfolding new add_check check_all blocking text_eq
  registry_check_with_error_returns_unhealthy = do
    let (registry, s) = new []
    s ←
        blocking rt
          (add_check registry (codes "failing") (pure (err (check_failed (codes "oops"))))) s
    (results, emitted) ← check_all rt features s registry
    assert (length results == 1)
    result ← first results
    assert (status_eq result.status unhealthy)
    assert (message_is result.message (codes "health check failed: oops"))

module _ (rt : Runtime) (features : Features) (up : (t : Time) → rt.accepts t ≡ true)
    (now : Time) where
  pub failing_check-Passes : Passes (failing_check_message_captures_error_detail rt features now)
  unfolding failing_check_message_captures_error_detail new add_check text_eq fold_outcome aggregate
      error_text
  failing_check-Passes =
      let refused = dependency_unavailable (codes "connection refused") in
      let register : Store → Store = (λ s.
        add_check made (codes "cache") (pure (err refused))
          (add_check made (codes "db") (pure (ok healthy)) s)) in
      Passes-continue _ _ (blocking-done rt register empty now (up now)) (
        Passes-continue _ _
          (check_readiness-latest rt now features (register empty) made
            ((_, ok healthy) ∷ (_, err refused) ∷ [])
            (refl, inr (omega arith), (refl, inr (omega arith), tt)))
          (_, refl))

  pub liveness_no_checks-Passes : Passes (registry_check_liveness_no_checks rt features now)
  unfolding registry_check_liveness_no_checks new is_healthy aggregate
  liveness_no_checks-Passes =
      Passes-continue _ _ (check_liveness-latest rt now features empty made [] tt) (_, refl)

  pub readiness_mixed-Passes : Passes (registry_check_readiness_mixed rt features now)
  unfolding registry_check_readiness_mixed new add_check fold_outcome aggregate
  readiness_mixed-Passes =
      let register : Store → Store = (λ s.
        add_check made (codes "degraded") (pure (ok degraded))
          (add_check made (codes "ok") (pure (ok healthy)) s)) in
      Passes-continue _ _ (blocking-done rt register empty now (up now)) (
        Passes-continue _ _
          (check_readiness-latest rt now features (register empty) made
            ((_, ok healthy) ∷ (_, ok degraded) ∷ [])
            (refl, inr (omega arith), (refl, inr (omega arith), tt)))
          (_, refl))

  pub liveness_mixed-Passes :
      Passes (registry_check_liveness_mixed_reports_worst_status rt features now)
  unfolding registry_check_liveness_mixed_reports_worst_status new add_check fold_outcome aggregate
  liveness_mixed-Passes =
      let down = dependency_unavailable (codes "db") in
      let register : Store → Store = (λ s. add_check made (codes "failing") (pure (err down)) (
        add_check made (codes "degraded") (pure (ok degraded))
          (add_check made (codes "ok") (pure (ok healthy)) s))) in
      Passes-continue _ _ (blocking-done rt register empty now (up now)) (
        Passes-continue _ _
          (check_liveness-latest rt now features (register empty) made
            ((_, ok healthy) ∷ (_, ok degraded) ∷ (_, err down) ∷ [])
            (refl, inr (omega arith), (refl, inr (omega arith), (refl, inr (omega arith), tt))))
          (_, refl))

  pub readiness_failing-Passes :
      Passes (registry_check_readiness_failing_reports_unhealthy_with_details rt features now)
  unfolding registry_check_readiness_failing_reports_unhealthy_with_details new add_check text_eq
      fold_outcome aggregate error_text debug
  readiness_failing-Passes =
      let late = check_timed_out (from_secs 2) in
      let register : Store → Store = (λ s.
        add_check made (codes "failing") (pure (err late))
          (add_check made (codes "ok") (pure (ok healthy)) s)) in
      Passes-continue _ _ (blocking-done rt register empty now (up now)) (
        Passes-continue _ _
          (check_readiness-latest rt now features (register empty) made
            ((_, ok healthy) ∷ (_, err late) ∷ [])
            (refl, inr (omega arith), (refl, inr (omega arith), tt)))
          (_, refl))

  pub registry_default-Passes : Passes (registry_default_is_empty_and_healthy rt features now)
  unfolding registry_default_is_empty_and_healthy default aggregate
  registry_default-Passes =
      Passes-continue _ _ (check_all-latest rt now features empty made [] tt) (
        Passes-continue _ _ (check_liveness-latest rt now features empty made [] tt)
          (Passes-continue _ _ (check_readiness-latest rt now features empty made [] tt) (_, refl)))

  pub check_with_error-Passes : Passes (registry_check_with_error_returns_unhealthy rt features now)
  unfolding registry_check_with_error_returns_unhealthy new add_check text_eq fold_outcome
      error_text
  check_with_error-Passes =
      let oops = check_failed (codes "oops") in
      let register = add_check made (codes "failing") (pure (err oops)) in
      Passes-continue _ _ (blocking-done rt register empty now (up now)) (
        Passes-continue _ _
          (check_all-latest rt now features (register empty) made ((_, err oops) ∷ [])
            (refl, inr (omega arith), tt))
          (_, refl))
