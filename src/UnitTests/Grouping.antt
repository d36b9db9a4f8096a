-- ===== src/UnitTests/Grouping.antt =====
-- src/registry.rs, the unit tests of registrations and groups.
use healthkit.Base.{
  ◌≡◌, refl, inr, codes, Text, Bool, List, [], ◌∷◌, ok, err, true, not, ◌&&◌, length, ◌==◌, arith,
}
use healthkit.Async.{Time, Async, pure, ◌>>=◌}
use healthkit.Async.Runtime.{Runtime}
use healthkit.Duration.{from_secs}
use healthkit.Types.{healthy, degraded, is_healthy, CheckResult}
use healthkit.Errors.{check_failed}
use healthkit.Registry.{
  Store, Features, add_check, add_check_to_group, members, fold_outcome, new, default_timeout,
  check_all, check_group, check_liveness, aggregate, text_eq,
}
use healthkit.Registry.Latest.{check_all-latest, check_group-latest, check_liveness-latest}
use healthkit.UnitTests.Harness.{
  ◌>>◌, assert, unwrap, first, status_eq, is_empty, blocking, blocking-done, Passes,
  Passes-continue, made, empty,
}

-- `init.iter().all(|r| r.name != …)`
unfoldable pub none_named : Text → List CheckResult → Bool
unfolding text_eq
none_named name [] = true
none_named name (r ∷ rs) = not (text_eq r.name name) && none_named name rs

unfoldable pub default_timeout_is_five_seconds : Async (Unit {0})
unfolding new default_timeout
default_timeout_is_five_seconds = do
  let (registry, s) = new []
  assert (default_timeout registry == from_secs 5)

module _ (rt : Runtime) (features : Features) where
  unfoldable pub check_group_runs_only_grouped_checks : Async (Unit {0})
  unfolding new add_check add_check_to_group check_group check_all check_liveness blocking
      none_named
  check_group_runs_only_grouped_checks = do
    let (registry, s) = new []
    s ←
        blocking rt
          (λ s. add_check_to_group registry (codes "deps") (codes "database") (pure (ok healthy)) (
            add_check_to_group registry (codes "init") (codes "cache_warm") (pure (ok degraded)) (
              add_check_to_group registry (codes "init") (codes "migrations") (pure (ok healthy))
                (add_check registry (codes "ungrouped") (pure (ok healthy)) s))))
          s
    init ← check_group rt s registry (codes "init")
    assert (length init == 2)
    assert (none_named (codes "ungrouped") init)
    assert (none_named (codes "database") init)
    (all, emitted) ← check_all rt features s registry
    assert (length all == 4)
    (r, emitted) ← check_liveness rt features s registry
    status ← unwrap r
    assert (status_eq status degraded)
    nope ← check_group rt s registry (codes "nope")
    assert (is_empty nope)

  unfoldable pub registry_new_and_add_check : Async (Unit {0})
  unfolding new add_check check_all blocking text_eq is_healthy
  registry_new_and_add_check = do
    let (registry, s) = new []
    (results, emitted) ← check_all rt features s registry
    assert (is_empty results)
    s ← blocking rt (add_check registry (codes "always_healthy") (pure (ok healthy))) s
    (results, emitted) ← check_all rt features s registry
    assert (length results == 1)
    result ← first results
    assert (text_eq result.name (codes "always_healthy"))
    assert (is_healthy result.status)

  unfoldable pub registry_add_multiple_checks : Async (Unit {0})
  unfolding new add_check check_all blocking
  registry_add_multiple_checks = do
    let (registry, s) = new []
    s ←
        blocking rt
          (λ s. add_check registry (codes "failing") (pure (err (check_failed (codes "oops")))) (
            add_check registry (codes "degraded") (pure (ok degraded))
              (add_check registry (codes "ok") (pure (ok healthy)) s)))
          s
    (results, emitted) ← check_all rt features s registry
    assert (length results == 3)

pub default_timeout-Passes : (now : Time) → Passes (default_timeout_is_five_seconds now)
unfolding default_timeout_is_five_seconds new default_timeout
default_timeout-Passes now = (now, refl)

module _ (rt : Runtime) (features : Features) (up : (t : Time) → rt.accepts t ≡ true)
    (now : Time) where
  pub check_group-Passes : Passes (check_group_runs_only_grouped_checks rt features now)
  unfolding check_group_runs_only_grouped_checks new add_check add_check_to_group members none_named
      text_eq fold_outcome aggregate
  check_group-Passes =
      let register : Store → Store = (λ s.
        add_check_to_group made (codes "deps") (codes "database") (pure (ok healthy)) (
          add_check_to_group made (codes "init") (codes "cache_warm") (pure (ok degraded)) (
            add_check_to_group made (codes "init") (codes "migrations") (pure (ok healthy))
              (add_check made (codes "ungrouped") (pure (ok healthy)) s)))) in
      Passes-continue _ _ (blocking-done rt register empty now (up now)) (
        Passes-continue _ _
          (check_group-latest rt now (register empty) made (codes "init")
            ((_, ok healthy) ∷ (_, ok degraded) ∷ [])
            (refl, inr (omega arith), (refl, inr (omega arith), tt)))
          (Passes-continue _ _
            (check_all-latest rt _ features (register empty) made
              ((_, ok healthy) ∷ (_, ok healthy) ∷ (_, ok degraded) ∷ (_, ok healthy) ∷ [])
              (
                refl,
                inr (omega arith),
                (refl, inr (omega arith), (refl, inr (omega arith), (refl, inr (omega arith), tt))),
              ))
            (Passes-continue _ _
              (check_liveness-latest rt _ features (register empty) made
                ((_, ok healthy) ∷ (_, ok healthy) ∷ (_, ok degraded) ∷ (_, ok healthy) ∷ [])
                (
                  refl,
                  inr (omega arith),
                  (
                    refl,
                    inr (omega arith),
                    (refl, inr (omega arith), (refl, inr (omega arith), tt)),
                  ),
                ))
              (Passes-continue _ _
                (check_group-latest rt _ (register empty) made (codes "nope") [] tt) (_, refl)))))

  pub registry_new-Passes : Passes (registry_new_and_add_check rt features now)
  unfolding registry_new_and_add_check new add_check text_eq fold_outcome is_healthy
  registry_new-Passes =
      let register = add_check made (codes "always_healthy") (pure (ok healthy)) in
      Passes-continue _ _ (check_all-latest rt now features empty made [] tt) (
        Passes-continue _ _ (blocking-done rt register empty now (up now)) (
          Passes-continue _ _
            (check_all-latest rt now features (register empty) made ((_, ok healthy) ∷ [])
              (refl, inr (omega arith), tt))
            (_, refl)))

  pub add_multiple-Passes : Passes (registry_add_multiple_checks rt features now)
  unfolding registry_add_multiple_checks new add_check fold_outcome
  add_multiple-Passes =
      let register : Store → Store = (λ s.
        add_check made (codes "failing") (pure (err (check_failed (codes "oops")))) (
          add_check made (codes "degraded") (pure (ok degraded))
            (add_check made (codes "ok") (pure (ok healthy)) s))) in
      Passes-continue _ _ (blocking-done rt register empty now (up now)) (
        Passes-continue _ _
          (check_all-latest rt now features (register empty) made
            ((_, ok healthy) ∷ (_, ok degraded) ∷ (_, err (check_failed (codes "oops"))) ∷ [])
            (refl, inr (omega arith), (refl, inr (omega arith), (refl, inr (omega arith), tt))))
          (_, refl))
