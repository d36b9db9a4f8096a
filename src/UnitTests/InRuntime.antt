-- ===== src/UnitTests/InRuntime.antt =====
-- src/registry.rs, the unit tests of registrations from inside a runtime.
use healthkit.Base.{◌≡◌, refl, inr, codes, [], ◌∷◌, none, ok, true, length, ◌==◌, arith}
use healthkit.Async.{Time, Async, pure, ◌>>=◌}
use healthkit.Async.Runtime.{Runtime}
use healthkit.Duration.{from_secs, from_millis, debug}
use healthkit.Types.{healthy, unhealthy}
use healthkit.Errors.{error_text}
use healthkit.Registry.{
  Features, add_check, add_check_to_group, members, fold_outcome, new, with_default_timeout,
  add_check_async, add_check_to_group_async, check_all, check_group, text_eq,
}
use healthkit.Registry.Latest.{check_all-latest, check_group-latest, check_all-Completes}
use healthkit.UnitTests.Harness.{
  ◌>>◌, assert, unwrap, first, status_eq, message_is, Sleep, slow, Passes, Passes-continue,
  add_check_async-done, made, empty, run_one-hangs, add_check_to_group_async-done,
}

module _ (rt : Runtime) (features : Features) where
  unfoldable pub add_check_async_is_safe_inside_a_current_thread_runtime : Async (Unit {0})
  unfolding new add_check_async check_all text_eq
  add_check_async_is_safe_inside_a_current_thread_runtime = do
    let (registry, s) = new []
    (s, added) ← add_check_async rt registry (codes "db") (pure (ok healthy)) s
    unwrap added
    (results, emitted) ← check_all rt features s registry
    assert (length results == 1)
    result ← first results
    assert (text_eq result.name (codes "db"))
    assert (status_eq result.status healthy)

  unfoldable pub add_check_to_group_async_is_safe_inside_a_current_thread_runtime : Async (Unit {0})
  unfolding new add_check_async add_check_to_group_async check_all check_group text_eq
  add_check_to_group_async_is_safe_inside_a_current_thread_runtime = do
    let (registry, s) = new []
    (s, added) ← add_check_async rt registry (codes "ungrouped") (pure (ok healthy)) s
    unwrap added
    (s, added) ←
        add_check_to_group_async rt registry (codes "init") (codes "migrations") (pure (ok healthy))
          s
    unwrap added
    init ← check_group rt s registry (codes "init")
    assert (length init == 1)
    result ← first init
    assert (text_eq result.name (codes "migrations"))
    (all, emitted) ← check_all rt features s registry
    assert (length all == 2)

  unfoldable pub add_check_async_registrations_are_visible_to_probes_with_timeouts :
      Sleep rt.lag → Async (Unit {0})
  unfolding new with_default_timeout add_check_async check_all text_eq
  add_check_async_registrations_are_visible_to_probes_with_timeouts timer = do
    let (registry, s) = new []
    let registry = with_default_timeout registry (from_millis 100)
    (s, added) ← add_check_async rt registry (codes "hangs") (slow timer (from_secs 10)) s
    unwrap added
    (results, emitted) ← check_all rt features s registry
    assert (length results == 1)
    result ← first results
    assert (status_eq result.status unhealthy)
    assert (message_is result.message (codes "health check timed out after 100ms"))

module _ (rt : Runtime) (features : Features) (up : (t : Time) → rt.accepts t ≡ true)
    (now : Time) where
  pub add_check_async-Passes :
      Passes (add_check_async_is_safe_inside_a_current_thread_runtime rt features now)
  unfolding add_check_async_is_safe_inside_a_current_thread_runtime new add_check text_eq
      fold_outcome
  add_check_async-Passes = Passes-continue _ _ (add_check_async-done rt up made _ _ empty now) (
      Passes-continue _ _
        (check_all-latest rt now features (add_check made (codes "db") (pure (ok healthy)) empty)
          made ((now, ok healthy) ∷ []) (refl, inr (omega arith), tt))
        (_, refl))

  pub add_check_to_group_async-Passes :
      Passes (add_check_to_group_async_is_safe_inside_a_current_thread_runtime rt features now)
  unfolding add_check_to_group_async_is_safe_inside_a_current_thread_runtime new add_check
      add_check_to_group members text_eq fold_outcome
  add_check_to_group_async-Passes =
      let s = add_check made (codes "ungrouped") (pure (ok healthy)) empty in
      let s' = add_check_to_group made (codes "init") (codes "migrations") (pure (ok healthy)) s in
      Passes-continue _ _ (add_check_async-done rt up made _ _ empty now) (
        Passes-continue _ _ (add_check_to_group_async-done rt up made _ _ _ s now) (
          Passes-continue _ _
            (check_group-latest rt now s' made (codes "init") ((now, ok healthy) ∷ [])
              (refl, inr (omega arith), tt))
            (Passes-continue _ _
              (check_all-latest rt _ features s' made ((_, ok healthy) ∷ (_, ok healthy) ∷ [])
                (refl, inr (omega arith), (refl, inr (omega arith), tt)))
              (_, refl))))

  pub add_check_async_with_timeouts-Passes :
      (timer : Sleep rt.lag)
      → Passes
          (add_check_async_registrations_are_visible_to_probes_with_timeouts rt features timer now)
  unfolding add_check_async_registrations_are_visible_to_probes_with_timeouts new
      with_default_timeout add_check text_eq fold_outcome error_text debug
  add_check_async_with_timeouts-Passes timer =
      let hasty = with_default_timeout made (from_millis 100) in
      let (t, from, to, ran) = run_one-hangs rt timer now none in
      Passes-continue _ _ (add_check_async-done rt up hasty _ _ empty now) (
        Passes-continue _ _
          (check_all-Completes rt now features
            (add_check hasty (codes "hangs") (slow timer (from_secs 10)) empty) hasty ((t, _) ∷ [])
            (ran, tt))
          (_, refl))
