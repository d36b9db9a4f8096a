-- ===== src/UnitTests/Sweeping.antt =====
-- src/registry.rs, the unit tests of sweeps: concurrency, deadlines, errors and groups.
use healthkit.Base.{
  ℕ, zero, suc, ◌+◌, ◌-◌, ◌<◌, ◌≡◌, refl, inl, inr, codes, List, [], ◌∷◌, ◌++◌, none, some, ok,
  true, max, length, ltb, leb, ◌==◌, arith,
}
use healthkit.Async.{Time, Async, pure, instant_now, elapsed, ◌>>=◌}
use healthkit.Async.Runtime.{Runtime}
use healthkit.Duration.{from_secs, from_millis, format, debug}
use healthkit.Types.{healthy, unhealthy, CheckResult}
use healthkit.Errors.{error_text}
use healthkit.Registry.{
  HealthRegistry, Store, Features, add_check, add_check_to_group, members, fold_outcome, new,
  with_default_timeout, check_all, check_group, text_eq,
}
use healthkit.Registry.Latest.{check_all-latest, check_all-Completes, check_group-Completes}
use healthkit.Registry.Reports.{run_one-InTime}
use healthkit.UnitTests.Harness.{
  ◌>>◌, assert, unwrap_some, first, find_name, status_eq, message_is, is_none, Sleep, slow,
  blocking, blocking-done, ltb_lt, leb_le, Passes, Passes-continue, made, empty, run_one-hangs,
  slow-done,
}

-- The loop that registers the checks `slow_i`.
unfoldable pub add_slow_checks : {lag : ℕ} → Sleep lag → HealthRegistry → ℕ → ℕ → Store → Store
unfolding add_check format
add_slow_checks timer r i zero s = s
add_slow_checks timer r i (suc n) s =
    add_slow_checks timer r (suc i) n
      (add_check r (codes "slow_" ++ format i) (slow timer (from_millis 200)) s)

-- The loop that looks at each result.
unfoldable pub assert_each_healthy : List CheckResult → Async (Unit {0})
assert_each_healthy [] = pure tt
assert_each_healthy (r ∷ rs) = do assert (status_eq r.status healthy); assert_each_healthy rs

module _ (rt : Runtime) (features : Features) (timer : Sleep rt.lag) where
  unfoldable pub checks_run_concurrently_slow_check_does_not_delay_others : Async (Unit {0})
  unfolding new add_check check_all add_slow_checks assert_each_healthy blocking
  checks_run_concurrently_slow_check_does_not_delay_others = do
    let (registry, s) = new []
    s ←
        blocking rt
          (λ s.
            add_check registry (codes "fast") (pure (ok healthy))
              (add_slow_checks timer registry 0 5 s))
          s
    start ← instant_now
    (results, emitted) ← check_all rt features s registry
    took ← elapsed start
    assert (length results == 6)
    assert (ltb took (from_millis 600))
    assert_each_healthy results

  unfoldable pub per_check_timeout_fires_and_captures_message : Async (Unit {0})
  unfolding new with_default_timeout add_check check_all text_eq blocking
  per_check_timeout_fires_and_captures_message = do
    let (registry, s) = new []
    let registry = with_default_timeout registry (from_millis 100)
    s ←
        blocking rt
          (λ s.
            add_check registry (codes "quick") (pure (ok healthy))
              (add_check registry (codes "hangs") (slow timer (from_secs 10)) s))
          s
    (results, emitted) ← check_all rt features s registry
    assert (length results == 2)
    hangs ← unwrap_some (find_name (codes "hangs") results)
    assert (status_eq hangs.status unhealthy)
    assert (message_is hangs.message (codes "health check timed out after 100ms"))
    assert (leb (from_millis 100) hangs.duration)
    assert (ltb hangs.duration (from_secs 2))
    quick ← unwrap_some (find_name (codes "quick") results)
    assert (status_eq quick.status healthy)
    assert (is_none quick.message)

  unfoldable pub zero_timeout_disables_deadline : Async (Unit {0})
  unfolding new with_default_timeout add_check check_all blocking
  zero_timeout_disables_deadline = do
    let (registry, s) = new []
    let registry = with_default_timeout registry 0
    s ← blocking rt (add_check registry (codes "slow_but_ok") (slow timer (from_millis 150))) s
    (results, emitted) ← check_all rt features s registry
    assert (length results == 1)
    result ← first results
    assert (status_eq result.status healthy)
    assert (is_none result.message)

  unfoldable pub group_checks_respect_timeout_and_message_capture : Async (Unit {0})
  unfolding new with_default_timeout add_check_to_group check_group text_eq blocking
  group_checks_respect_timeout_and_message_capture = do
    let (registry, s) = new []
    let registry = with_default_timeout registry (from_millis 100)
    s ←
        blocking rt
          (add_check_to_group registry (codes "init") (codes "hangs") (slow timer (from_secs 10))) s
    results ← check_group rt s registry (codes "init")
    assert (length results == 1)
    result ← first results
    assert (status_eq result.status unhealthy)
    assert (message_is result.message (codes "health check timed out after 100ms"))

module _ (rt : Runtime) (features : Features) (timer : Sleep rt.lag)
    (up : (t : Time) → rt.accepts t ≡ true) (now : Time) where
  pub zero_timeout-Passes : Passes (zero_timeout_disables_deadline rt features timer now)
  unfolding zero_timeout_disables_deadline new with_default_timeout add_check fold_outcome
  zero_timeout-Passes =
      let (t, from, to, e) = slow-done rt timer now (from_millis 150) in
      let patient = with_default_timeout made 0 in
      let register = add_check patient (codes "slow_but_ok") (slow timer (from_millis 150)) in
      Passes-continue _ _ (blocking-done rt register empty now (up now)) (
        Passes-continue _ _
          (check_all-latest rt now features (register empty) patient ((t, ok healthy) ∷ [])
            (e, inl refl, tt))
          (_, refl))

  pub per_check_timeout-Passes :
      rt.lag < from_millis 400
      → Passes (per_check_timeout_fires_and_captures_message rt features timer now)
  unfolding per_check_timeout_fires_and_captures_message new with_default_timeout add_check text_eq
      fold_outcome error_text debug
  per_check_timeout-Passes short =
      let hasty = with_default_timeout made (from_millis 100) in
      let register : Store → Store = (λ s.
        add_check hasty (codes "quick") (pure (ok healthy))
          (add_check hasty (codes "hangs") (slow timer (from_secs 10)) s)) in
      let (t, from, to, ran) = run_one-hangs rt timer now none in
      let quick =
        run_one-InTime rt
          (record { name = codes "quick"; group = none; check_fn = pure (ok healthy) }) now
          (from_millis 100) now (ok healthy) refl (inr (omega arith)) in
      Passes-continue _ _ (blocking-done rt register empty now (up now)) (
        Passes-continue _ _
          (check_all-Completes rt now features (register empty) hasty ((t, _) ∷ (now, _) ∷ [])
            (ran, (quick, tt)))
          (
            max t (max now now),
            rw
                (
                  leb_le (from_millis 100) (t - now) (omega arith),
                  ltb_lt (t - now) (from_secs 2) (omega arith),
                )
                refl,
          ))

  pub group_timeout-Passes :
      Passes (group_checks_respect_timeout_and_message_capture rt features timer now)
  unfolding group_checks_respect_timeout_and_message_capture new with_default_timeout
      add_check_to_group members text_eq fold_outcome error_text debug
  group_timeout-Passes =
      let hasty = with_default_timeout made (from_millis 100) in
      let register =
        add_check_to_group hasty (codes "init") (codes "hangs") (slow timer (from_secs 10)) in
      let (t, from, to, ran) = run_one-hangs rt timer now (some (codes "init")) in
      Passes-continue _ _ (blocking-done rt register empty now (up now)) (
        Passes-continue _ _
          (check_group-Completes rt now (register empty) hasty (codes "init") ((t, _) ∷ [])
            (ran, tt))
          (_, refl))

  pub concurrently-Passes :
      rt.lag < from_millis 400
      → Passes (checks_run_concurrently_slow_check_does_not_delay_others rt features timer now)
  unfolding checks_run_concurrently_slow_check_does_not_delay_others new add_check add_slow_checks
      assert_each_healthy text_eq fold_outcome
  concurrently-Passes short =
      let (t, from, to, e) = slow-done rt timer now (from_millis 200) in
      let register : Store → Store = (λ s.
        add_check made (codes "fast") (pure (ok healthy)) (add_slow_checks timer made 0 5 s)) in
      let soon : t < now + from_secs 5 = omega arith in
      Passes-continue _ _ (blocking-done rt register empty now (up now)) (
        Passes-continue _ _
          (check_all-latest rt now features (register empty) made
            ((t, ok healthy)
              ∷ (t, ok healthy)
              ∷ (t, ok healthy)
              ∷ (t, ok healthy)
              ∷ (t, ok healthy)
              ∷ (now, ok healthy)
              ∷ [])
            (
              e,
              inr soon,
              (
                e,
                inr soon,
                (e, inr soon, (e, inr soon, (e, inr soon, (refl, inr (omega arith), tt)))),
              ),
            ))
          (
            max t (max t (max t (max t (max t (max now now))))),
            rw
                (ltb_lt (max t (max t (max t (max t (max t (max now now))))) - now)
                  (from_millis 600) (omega arith))
                refl,
          ))
