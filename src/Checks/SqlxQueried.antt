-- ===== src/Checks/SqlxQueried.antt =====
-- src/checks/sqlx.rs, `check`: what it returns in each case, and when it unwinds.
use native.Mathlib.Decide.{dec_lt}
use healthkit.Base.{
  ◌-◌, ◌+◌, ◌≤◌, ◌<◌, ◌≡◌, refl, ◌⊎◌, inl, inr, codes, ◌++◌, Result, ok, err, arith,
}
use healthkit.Async.{Time, Outcome, done, panicked, hangs}
use healthkit.Async.Runtime.{Runtime, Late, elapsed_error}
use healthkit.Types.{HealthStatus, healthy, degraded}
use healthkit.Errors.{HealthCheckError, check_timed_out, dependency_unavailable}
use healthkit.Checks.Sqlx.{Database, SqlxCheck, judge, check, probe_query}
use healthkit.Checks.SqlxOutcomes.{check_of_probe}

-- What the check must return at the instant `t`.
pub data Queried (lag : Time) (db : Database) (self : SqlxCheck db) (now t : Time)
    (r : Result HealthStatus HealthCheckError) : Type 0 where
  fast :
      (q : db.QueryResult)
      → db.execute probe_query self.pool now ≡ done t (ok q)
      → t < now + self.timeout
      → t - now ≤ self.warn_above
      → r ≡ ok healthy
      → Queried lag db self now t r
  slow :
      (q : db.QueryResult)
      → db.execute probe_query self.pool now ≡ done t (ok q)
      → t < now + self.timeout
      → self.warn_above < t - now
      → r ≡ ok degraded
      → Queried lag db self now t r
  query_failed :
      (e : db.SqlxError)
      → db.execute probe_query self.pool now ≡ done t (err e)
      → t < now + self.timeout
      → r ≡ err (dependency_unavailable (codes "database probe failed: " ++ db.sqlx_error_text e))
      → Queried lag db self now t r
  timed_out :
      Late (now + self.timeout) (db.execute probe_query self.pool now)
      → now + self.timeout ≤ t
      → t ≤ now + self.timeout + lag
      → r ≡ err (check_timed_out self.timeout)
      → Queried lag db self now t r

module _ (rt : Runtime) (db : Database) (self : SqlxCheck db) (now : Time) where
  abbrev Concludes : Type 0
  Concludes =
      ((t : Time) × (r : Result HealthStatus HealthCheckError) × (check db rt self now ≡ done t r)
        × Queried rt.lag db self now t r)
      ⊎ ((t : Time) × (db.execute probe_query self.pool now ≡ panicked t)
          × (t < now + self.timeout)
          × (check db rt self now ≡ panicked t))

  judged :
      (t : Time) (r : Result db.QueryResult db.SqlxError)
      → db.execute probe_query self.pool now ≡ done t r
      → t < now + self.timeout
      → Queried rt.lag db self now t (judge db self (t - now) (ok r))
  unfolding judge
  judged t (err e) ran soon = Queried.query_failed e ran soon refl
  judged t (ok q) ran soon = elim (dec_lt self.warn_above (t - now)) [
    | yes above ↦ Queried.slow q ran soon above (ground arith)
    | no within ↦ Queried.fast q ran soon (omega arith) (ground arith)
  ]

  cut_off : Late (now + self.timeout) (db.execute probe_query self.pool now) → Concludes
  unfolding judge
  cut_off late =
      let (t, from, to, e) =
        rt.timeout_elapsed self.timeout (db.execute probe_query self.pool) now late in
      inl (
        t,
        err (check_timed_out self.timeout),
        check_of_probe rt db self now t (err elapsed_error) e,
        Queried.timed_out late from to refl,
      )

  unwound :
      (t : Time)
      → db.execute probe_query self.pool now ≡ panicked t
      → t < now + self.timeout
      → check db rt self now ≡ panicked t
  unfolding check
  unwound t e soon =
      rw (rt.timeout_panicked self.timeout (db.execute probe_query self.pool) now t e soon)

  concludes :
      (o : Outcome (Result db.QueryResult db.SqlxError))
      → db.execute probe_query self.pool now ≡ o
      → Concludes
  concludes (done t r) e = elim (dec_lt t (now + self.timeout)) [
    | no late ↦ cut_off (rw e (omega arith))
    | yes soon ↦ inl (
      t,
      judge db self (t - now) (ok r),
      check_of_probe rt db self now t (ok r) (rt.timeout_done self.timeout _ now t r e soon),
      judged t r e soon,
    )
  ]
  concludes (panicked t) e = elim (dec_lt t (now + self.timeout)) [
    | no late ↦ cut_off (rw e (omega arith))
    | yes soon ↦ inr (t, e, soon, unwound t e soon)
  ]
  concludes hangs e = cut_off (rw e tt)

  -- Whatever the database does, either the check returns what it must: `healthy` or `degraded` for a
  -- query that succeeded in time, by the threshold; an unavailable dependency with the error of a
  -- query that failed in time; and else the deadline, with no earlier end than the deadline and no
  -- later one than the lag of the timer. Or the driver unwound before the deadline, and the check
  -- unwinds with it at that instant.
  pub check-Queried :
      ((t : Time) × (r : Result HealthStatus HealthCheckError) × (check db rt self now ≡ done t r)
        × Queried rt.lag db self now t r)
      ⊎ ((t : Time) × (db.execute probe_query self.pool now ≡ panicked t)
          × (t < now + self.timeout)
          × (check db rt self now ≡ panicked t))
  check-Queried = concludes (db.execute probe_query self.pool now) refl
