-- ===== src/UnitTests/QueryingPasses.antt =====
-- src/checks/sqlx.rs, the unit tests of the database check: that they pass.
use healthkit.Base.{
  ◌+◌, ◌-◌, ◌≤◌, ◌<◌, ◌≡◌, refl, ap, ◌∙◌, inr, true, codes, ◌++◌, List, [], ◌∷◌, ok, err, All,
  arith,
}
use healthkit.Async.{Time, Async, done}
use healthkit.Async.Runtime.{Runtime, elapsed_error}
use healthkit.Duration.{from_secs, from_millis}
use healthkit.Types.{healthy, degraded}
use healthkit.Errors.{dependency_unavailable, check_timed_out}
use healthkit.Registry.{Features, new, fold_outcome, text_eq, add_check}
use healthkit.Registry.Latest.{check_all-latest}
use healthkit.Checks.Sqlx
use healthkit.Checks.Sqlx.{Database, SqlxCheck, probe_query}
use healthkit.Checks.SqlxOutcomes.{check_of_probe}
use healthkit.UnitTests.Harness.{
  Passes, Passes-continue, ◌&◌, ltb_lt, ltb_ge, blocking-done, made, empty,
}
use healthkit.UnitTests.Expositions.{contains}
use healthkit.UnitTests.Querying.{
  Sqlite, IsOpen, IsClosed, IsExhausted, healthy_when_probe_succeeds_within_threshold,
  degraded_when_latency_exceeds_threshold, builder_overrides_are_applied,
  unhealthy_when_probe_fails, times_out_when_probe_exceeds_deadline,
  register_integrates_with_registry,
}

module _ (rt : Runtime) (db : Database) (self : SqlxCheck db) (now : Time) where
  -- An open pool is healthy, if the threshold is not below what a trivial query takes.
  pub check-open :
      IsOpen db self.pool
      → from_millis 50 < self.timeout
      → from_millis 50 ≤ self.warn_above
      → (t : Time) × (t ≤ now + from_millis 50) × (Sqlx.check db rt self now ≡ done t (ok healthy))
  unfolding Sqlx.judge
  check-open opened patient tolerant =
      let (t, q, after, soon, e) = opened now in
      let ran =
        check_of_probe rt db self now t (ok (ok q))
          (rt.timeout_done self.timeout _ now t (ok q) e (omega arith)) in
      (t, soon, ran ∙ rw (ltb_ge self.warn_above (t - now) (omega arith)) refl)

  pub check-degraded :
      IsOpen db self.pool
      → from_millis 50 < self.timeout
      → self.warn_above ≡ 0
      → (t : Time) × (t ≤ now + from_millis 50) × (Sqlx.check db rt self now ≡ done t (ok degraded))
  unfolding Sqlx.judge
  check-degraded opened patient strict =
      let (t, q, after, soon, e) = opened now in
      let ran =
        check_of_probe rt db self now t (ok (ok q))
          (rt.timeout_done self.timeout _ now t (ok q) e (omega arith)) in
      (t, soon, ran ∙ rw (ltb_lt self.warn_above (t - now) (omega arith)) refl)

  pub check-closed :
      IsClosed db self.pool
      → from_secs 2 ≤ self.timeout
      → (t : Time) × (e : db.SqlxError) × (t < now + from_secs 2)
        × (Sqlx.check db rt self now
            ≡ done t (
                err (
                  dependency_unavailable
                    (codes "database probe failed: " ++ db.sqlx_error_text e))))
  unfolding Sqlx.judge
  check-closed shut patient =
      let (t, x, soon, e) = shut now in
      (
        t,
        x,
        soon,
        check_of_probe rt db self now t (ok (err x))
            (rt.timeout_done self.timeout _ now t (err x) e (omega arith)),
      )

  check-exhausted :
      IsExhausted db self.pool
      → self.timeout ≡ from_millis 100
      → (t : Time) × (Sqlx.check db rt self now ≡ done t (err (check_timed_out (from_millis 100))))
  unfolding Sqlx.judge
  check-exhausted busy short =
      let (t, from, to, e) =
        rt.timeout_elapsed self.timeout (db.execute probe_query self.pool) now
          (rw short (busy now)) in
      (
        t,
        check_of_probe rt db self now t (err elapsed_error) e
            ∙ ap (λ d. done t (err (check_timed_out d))) short,
      )

module _ (rt : Runtime) (features : Features) (db : Database) (sqlite : Sqlite db)
    (now : Time) where
  healthy_within-Passes :
      Passes (healthy_when_probe_succeeds_within_threshold rt features db sqlite now)
  unfolding healthy_when_probe_succeeds_within_threshold Sqlx.new
  healthy_within-Passes =
      let (t, pool, opened, is_open) = sqlite.opens now in
      let (u, soon, ran) =
        check-open rt db (Sqlx.new db pool (from_secs 2) 500) t is_open (omega arith)
          (omega arith) in
      Passes-continue _ _ opened (Passes-continue _ _ ran (_, refl))

  degraded_above-Passes : Passes (degraded_when_latency_exceeds_threshold rt features db sqlite now)
  unfolding degraded_when_latency_exceeds_threshold Sqlx.new
  degraded_above-Passes =
      let (t, pool, opened, is_open) = sqlite.opens now in
      let (u, soon, ran) =
        check-degraded rt db (Sqlx.new db pool (from_secs 2) 0) t is_open (omega arith) refl in
      Passes-continue _ _ opened (Passes-continue _ _ ran (_, refl))

  builder-Passes : Passes (builder_overrides_are_applied rt features db sqlite now)
  unfolding builder_overrides_are_applied Sqlx.new Sqlx.with_timeout Sqlx.with_warn_above_ms
  builder-Passes =
      let (t, pool, opened, is_open) = sqlite.opens now in
      let (u, soon, ran) =
        check-open rt db
          (Sqlx.with_warn_above_ms db
            (Sqlx.with_timeout db (Sqlx.new db pool (from_secs 30) 0) (from_secs 5)) 50)
          t is_open (omega arith) (omega arith) in
      let (v, pool', closed, is_closed) = sqlite.closes pool u in
      Passes-continue _ _ opened (Passes-continue _ _ ran (Passes-continue _ _ closed (_, refl)))

  probe_fails-Passes : Passes (unhealthy_when_probe_fails rt features db sqlite now)
  unfolding unhealthy_when_probe_fails Sqlx.new contains
  probe_fails-Passes =
      let (t, pool, opened, is_open) = sqlite.opens now in
      let (u, pool', closed, is_closed) = sqlite.closes pool t in
      let (v, e, soon, ran) =
        check-closed rt db (Sqlx.new db pool' (from_secs 2) 500) u is_closed (omega arith) in
      Passes-continue _ _ opened (Passes-continue _ _ closed (Passes-continue _ _ ran (_, refl)))

  times_out-Passes : Passes (times_out_when_probe_exceeds_deadline rt features db sqlite now)
  unfolding times_out_when_probe_exceeds_deadline Sqlx.new
  times_out-Passes =
      let (t, pool, opened, is_open) = sqlite.opens now in
      let (u, pool', acquired, is_busy) = sqlite.acquires pool t is_open in
      let (v, ran) =
        check-exhausted rt db (Sqlx.new db pool' (from_millis 100) 500) u is_busy refl in
      Passes-continue _ _ opened (Passes-continue _ _ acquired (Passes-continue _ _ ran (_, refl)))

  register-Passes :
      ((t : Time) → rt.accepts t ≡ true)
      → Passes (register_integrates_with_registry rt features db sqlite now)
  unfolding register_integrates_with_registry new Sqlx.new Sqlx.register add_check text_eq
      fold_outcome
  register-Passes up =
      let (t, pool, opened, is_open) = sqlite.opens now in
      let check = Sqlx.new db pool (from_secs 2) 500 in
      let (u, soon, ran) = check-open rt db check t is_open (omega arith) (omega arith) in
      let register = Sqlx.register db rt check made (codes "database") in
      Passes-continue _ _ opened (
        Passes-continue _ _ (blocking-done rt register empty t (up t)) (
          Passes-continue _ _
            (check_all-latest rt t features (register empty) made ((u, ok healthy) ∷ [])
              (ran, inr (omega arith), tt))
            (_, refl)))

module _ (rt : Runtime) (features : Features) (db : Database) (sqlite : Sqlite db) where
  -- The tests, in the order of the file.
  abbrev pub sqlx_tests : List (Async (Unit {0}))
  sqlx_tests =
      healthy_when_probe_succeeds_within_threshold rt features db sqlite
      ∷ degraded_when_latency_exceeds_threshold rt features db sqlite
      ∷ builder_overrides_are_applied rt features db sqlite
      ∷ unhealthy_when_probe_fails rt features db sqlite
      ∷ times_out_when_probe_exceeds_deadline rt features db sqlite
      ∷ register_integrates_with_registry rt features db sqlite
      ∷ []

  -- On each runtime that takes blocking tasks, and with a pool that answers a trivial query within
  -- 50 milliseconds, fails one behind its close, and delays one while its connection is taken, each
  -- unit test of the database check ends, whenever it is started, and no assertion of it fails.
  pub sqlx_tests-Passes :
      (now : Time) → ((t : Time) → rt.accepts t ≡ true) → All (λ test. Passes (test now)) sqlx_tests
  sqlx_tests-Passes now up =
      healthy_within-Passes rt features db sqlite now
      & degraded_above-Passes rt features db sqlite now
      & builder-Passes rt features db sqlite now
      & probe_fails-Passes rt features db sqlite now
      & times_out-Passes rt features db sqlite now
      & register-Passes rt features db sqlite now up
      & tt
