-- ===== src/Checks/SqlxOutcomes.antt =====
-- src/checks/sqlx.rs, `check`: when the probe reports what, and that it returns.
use native.Mathlib.Decide.{dec_lt}
use healthkit.Base.{
  ◌-◌, ◌+◌, ◌≤◌, ◌<◌, ◌≡◌, refl, ◌∙◌, ap, ◌↔◌, ◌⊎◌, inl, inr, Result, ok, err, arith,
}
use healthkit.Async.{Time, Outcome, done, panicked, hangs}
use healthkit.Async.Runtime.{Runtime, Elapsed, Late, elapsed_error}
use healthkit.Duration.{Duration}
use healthkit.Types.{HealthStatus, healthy, degraded}
use healthkit.Errors.{HealthCheckError, check_timed_out}
use healthkit.Checks.Sqlx.{Database, SqlxCheck, judge, check, probe_query}

module _ (rt : Runtime) (db : Database) (self : SqlxCheck db) (now : Time) where
  pub check_of_probe :
      (t : Time) (x : Result (Result db.QueryResult db.SqlxError) Elapsed)
      → rt.timeout self.timeout (db.execute probe_query self.pool) now ≡ done t x
      → check db rt self now ≡ done t (judge db self (t - now) x)
  unfolding check
  check_of_probe t x e = rw e

  -- The status that a probe which succeeds in time amounts to.
  abbrev pub Graded : Duration → HealthStatus → Type 0
  Graded took s =
      ((s ≡ healthy) × (took ≤ self.warn_above)) ⊎ ((s ≡ degraded) × (self.warn_above < took))

  grade :
      (took : Duration) (q : db.QueryResult) (s : HealthStatus)
      → (judge db self took (ok (ok q)) ≡ ok s) ↔ Graded took s
  unfolding judge
  grade took q s = ground arith

  -- The driver does not unwind before the deadline.
  abbrev pub AnswersOrLate : {A : Type 0} → Outcome A → Type 0
  AnswersOrLate (done t a) = Unit
  AnswersOrLate (panicked t) = now + self.timeout ≤ t
  AnswersOrLate hangs = Unit

  Settled : Type 0
  Settled =
      ((u : Time) × (q : db.QueryResult) × (db.execute probe_query self.pool now ≡ done u (ok q))
        × (u < now + self.timeout)
        × (check db rt self now ≡ done u (judge db self (u - now) (ok (ok q)))))
      ⊎ ((t : Time) × (e : HealthCheckError) × (check db rt self now ≡ done t (err e))
          × (t ≤ now + self.timeout + rt.lag))

  late_settled : Late (now + self.timeout) (db.execute probe_query self.pool now) → Settled
  unfolding Settled judge
  late_settled late =
      let (t, from, to, e) =
        rt.timeout_elapsed self.timeout (db.execute probe_query self.pool) now late in
      inr (t, check_timed_out self.timeout, check_of_probe t (err elapsed_error) e, to)

  soon_settled :
      (t : Time) (r : Result db.QueryResult db.SqlxError)
      → db.execute probe_query self.pool now ≡ done t r
      → t < now + self.timeout
      → Settled
  unfolding Settled judge
  soon_settled t (ok q) e soon = inl (
    t,
    q,
    e,
    soon,
    check_of_probe t (ok (ok q)) (rt.timeout_done self.timeout _ now t (ok q) e soon),
  )
  soon_settled t (err x) e soon = inr (
    t,
    _,
    check_of_probe t (ok (err x)) (rt.timeout_done self.timeout _ now t (err x) e soon),
    omega arith,
  )

  settled :
      (o : Outcome (Result db.QueryResult db.SqlxError))
      → db.execute probe_query self.pool now ≡ o
      → AnswersOrLate o
      → Settled
  settled (done t r) e h = elim (dec_lt t (now + self.timeout)) [
    | no late ↦ late_settled (rw e (omega arith))
    | yes soon ↦ soon_settled t r e soon
  ]
  settled (panicked t) e h = late_settled (rw e h)
  settled hangs e h = late_settled (rw e tt)

  graded :
      (took : Duration) (q : db.QueryResult)
      → (s : HealthStatus) × (judge db self took (ok (ok q)) ≡ ok s) × Graded took s
  graded took q = elim (dec_lt self.warn_above took) [
    | yes slow ↦
        let g : Graded took degraded = inr (refl, slow) in
        (degraded, (grade took q degraded).1 g, g)
    | no fast ↦
        let g : Graded took healthy = inl (refl, omega arith) in
        (healthy, (grade took q healthy).1 g, g)
  ]

  -- Unless the driver unwinds before the deadline, the check returns, by its deadline and the lag of
  -- the timer, also if the query never ends. It reports a status only if the query succeeded before
  -- the deadline: `healthy` if that took no longer than the threshold, `degraded` if it took longer;
  -- in all other cases it returns an error.
  pub check-Settles :
      AnswersOrLate (db.execute probe_query self.pool now)
      → ((t : Time) × (q : db.QueryResult) × (s : HealthStatus) × (check db rt self now
            ≡ done t (ok s))
          × (db.execute probe_query self.pool now ≡ done t (ok q))
          × (t < now + self.timeout)
          × Graded (t - now) s)
        ⊎ ((t : Time) × (e : HealthCheckError) × (check db rt self now ≡ done t (err e))
            × (t ≤ now + self.timeout + rt.lag))
  unfolding Settled
  check-Settles h = elim (settled (db.execute probe_query self.pool now) refl h) [
    | inl (u, q, ran, soon, ended) ↦
        let (s, judged, g) = graded (u - now) q in
        inl (u, q, s, ended ∙ ap (done u) judged, ran, soon, g)
    | inr failed ↦ inr failed
  ]

  -- Unless the driver unwinds before the deadline, the check reports a status exactly if the query
  -- succeeded before the deadline: `healthy` if that took no longer than the threshold, `degraded`
  -- if it took longer.
  pub check-Graded :
      (t : Time) (s : HealthStatus)
      → AnswersOrLate (db.execute probe_query self.pool now)
      → (check db rt self now ≡ done t (ok s)) ↔ (
          ((q : db.QueryResult) × (db.execute probe_query self.pool now ≡ done t (ok q)))
          × (t < now + self.timeout)
          × Graded (t - now) s)
  check-Graded t s h = (to (check-Settles h), from)
    where
      to :
          ((u : Time) × (q : db.QueryResult) × (x : HealthStatus) × (check db rt self now
                ≡ done u (ok x))
              × (db.execute probe_query self.pool now ≡ done u (ok q))
              × (u < now + self.timeout)
              × Graded (u - now) x)
            ⊎ ((u : Time) × (e : HealthCheckError) × (check db rt self now ≡ done u (err e))
                × (u ≤ now + self.timeout + rt.lag))
          → check db rt self now ≡ done t (ok s)
          → ((q : db.QueryResult) × (db.execute probe_query self.pool now ≡ done t (ok q)))
            × (t < now + self.timeout)
            × Graded (t - now) s
      to (inr (u, e, ran, by)) k = cc
      to (inl (u, q, x, ran, answered, soon, g)) k =
          let same : u ≡ t = cc in
          let same' : x ≡ s = cc in
          ((q, rw (← same) answered), rw (← same) soon, rw (← same, ← same') g)

      from :
          ((q : db.QueryResult) × (db.execute probe_query self.pool now ≡ done t (ok q)))
            × (t < now + self.timeout)
            × Graded (t - now) s
          → check db rt self now ≡ done t (ok s)
      from ((q, answered), soon, g) =
          check_of_probe t (ok (ok q)) (rt.timeout_done self.timeout _ now t (ok q) answered soon)
          ∙ ap (done t) ((grade (t - now) q s).1 g)
