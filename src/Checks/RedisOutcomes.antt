-- ===== src/Checks/RedisOutcomes.antt =====
-- src/checks/redis.rs, `check`: when the probe reports what, and that it always returns.
use native.Mathlib.Decide.{dec_lt}
use healthkit.Base.{
  ◌-◌, ◌+◌, ◌≤◌, ◌<◌, ◌≡◌, refl, ◌∙◌, ap, ◌≢◌, ◌↔◌, ◌⊎◌, inl, inr, true, false, Text, codes, ◌++◌,
  Result, ok, err, ltb, Bool-cases, if◌then◌else◌, arith,
}
use healthkit.Async.{Time, Outcome, Async, done, panicked, hangs}
use healthkit.Async.Runtime.{Runtime, Elapsed, Late, elapsed_error}
use healthkit.Duration.{Duration, from_secs, max_duration}
use healthkit.Types.{HealthStatus, healthy, degraded}
use healthkit.Errors.{HealthCheckError, check_failed, check_timed_out}
use healthkit.Registry.Groups.{text_eq_iff}
use healthkit.Registry.{text_eq}
use healthkit.Checks.Redis.{RedisClient, RedisCheck, ping, judge, check}

module _ (rt : Runtime) (redis : RedisClient) (self : RedisCheck) (now : Time) where
  unfoldable pub probe : Async (Result (Result Text redis.RedisError) rt.JoinError)
  probe = rt.spawn_blocking (ping redis self.url self.timeout)

  -- What the probe came to, under the deadline.
  pub check_of_probe :
      (t : Time) (x : Result (Result (Result Text redis.RedisError) rt.JoinError) Elapsed)
      → rt.timeout self.timeout probe now ≡ done t x
      → check rt redis self now ≡ done t (judge rt redis self (t - now) x)
  unfolding check probe
  check_of_probe t x e = rw e

  Ended : Type 0
  Ended =
      (t : Time) × (r : Result HealthStatus HealthCheckError) × (check rt redis self now ≡ done t r)
      × (t ≤ now + self.timeout + rt.lag)

  late_ends : Late (now + self.timeout) (probe now) → Ended
  unfolding Ended
  late_ends late =
      let (t, from, to, e) = rt.timeout_elapsed self.timeout probe now late in
      (t, judge rt redis self (t - now) (err elapsed_error), check_of_probe t _ e, to)

  done_ends :
      (t : Time) (x : Result (Result Text redis.RedisError) rt.JoinError)
      → probe now ≡ done t x
      → Ended
  unfolding Ended
  done_ends t x e = elim (dec_lt t (now + self.timeout)) [
    | no late ↦ late_ends (rw e (omega arith))
    | yes soon ↦ (
      t,
      judge rt redis self (t - now) (ok x),
      check_of_probe t (ok x) (rt.timeout_done self.timeout probe now t x e soon),
      omega arith,
    )
  ]

  ends_running :
      (o : Outcome (Result Text redis.RedisError))
      → rt.accepts now ≡ true
      → ping redis self.url self.timeout now ≡ o
      → Ended
  unfolding probe
  ends_running (done t r) up e = done_ends t (ok r) (rt.spawn_blocking_done _ now t r up e)
  ends_running (panicked t) up e =
      let (j, ran) = rt.spawn_blocking_panicked _ now t up e in done_ends t (err j) ran
  ends_running hangs up e = late_ends (rw (rt.spawn_blocking_hangs _ now up e) tt)

  -- The check always returns, by its deadline and the lag of the timer: also if the client blocks
  -- forever or unwinds, and if the runtime shuts down.
  pub check-Returns :
      (t : Time) × (r : Result HealthStatus HealthCheckError) × (check rt redis self now ≡ done t r)
      × (t ≤ now + self.timeout + rt.lag)
  unfolding Ended probe
  check-Returns = elim (Bool-cases (rt.accepts now)) [
    | inl up ↦ ends_running (ping redis self.url self.timeout now) up refl
    | inr down ↦ let (t, j, ran) = rt.spawn_blocking_refused _ now down in done_ends t (err j) ran
  ]

  abbrev InTimeOrError : Type 0
  InTimeOrError =
      ((u : Time) × (r : Result Text redis.RedisError) × (ping redis self.url self.timeout now
          ≡ done u r)
        × (u < now + self.timeout)
        × (check rt redis self now ≡ done u (judge rt redis self (u - now) (ok (ok r)))))
      ⊎ ((t : Time) × (e : HealthCheckError) × (check rt redis self now ≡ done t (err e)))

  late_error : Late (now + self.timeout) (probe now) → InTimeOrError
  unfolding judge
  late_error late =
      let (t, from, to, e) = rt.timeout_elapsed self.timeout probe now late in
      inr (t, check_timed_out self.timeout, check_of_probe t (err elapsed_error) e)

  task_error : (t : Time) (j : rt.JoinError) → probe now ≡ done t (err j) → InTimeOrError
  unfolding judge
  task_error t j e = elim (dec_lt t (now + self.timeout)) [
    | no late ↦ late_error (rw e (omega arith))
    | yes soon ↦ inr (
      t,
      _,
      check_of_probe t (ok (err j)) (rt.timeout_done self.timeout probe now t (err j) e soon),
    )
  ]

  cases_at :
      (o : Outcome (Result Text redis.RedisError))
      → rt.accepts now ≡ true
      → ping redis self.url self.timeout now ≡ o
      → InTimeOrError
  unfolding probe
  cases_at (done t r) up e = elim (dec_lt t (now + self.timeout)) [
    | no late ↦ late_error (rw (rt.spawn_blocking_done _ now t r up e) (omega arith))
    | yes soon ↦ inl (
      t,
      r,
      e,
      soon,
      check_of_probe t (ok (ok r)) (
          rt.timeout_done self.timeout probe now t (ok r) (rt.spawn_blocking_done _ now t r up e)
            soon),
    )
  ]
  cases_at (panicked t) up e =
      let (j, ran) = rt.spawn_blocking_panicked _ now t up e in task_error t j ran
  cases_at hangs up e = late_error (rw (rt.spawn_blocking_hangs _ now up e) tt)

  -- The status that a reply in time amounts to.
  abbrev pub Graded : Duration → HealthStatus → Type 0
  Graded took s =
      ((s ≡ healthy) × (took ≤ self.warn_above)) ⊎ ((s ≡ degraded) × (self.warn_above < took))

  grade :
      (took : Duration) (s : HealthStatus)
      → (◌≡◌ {A = Result HealthStatus HealthCheckError}
          (if ltb self.warn_above took then ok degraded else ok healthy)
          (ok s))
        ↔ Graded took s
  grade took s = ground arith

  differs :
      (reply : Text)
      → text_eq reply (codes "PONG") ≡ false
      → ◌≢◌ {A = Result Text redis.RedisError} (ok reply) (ok (codes "PONG"))
  differs reply other h =
      let p : reply ≡ codes "PONG" = cc in
      let same : text_eq reply (codes "PONG") ≡ true = (text_eq_iff reply (codes "PONG")).1 p in cc

  judge-ok :
      (took : Duration) (r : Result Text redis.RedisError) (s : HealthStatus)
      → (judge rt redis self took (ok (ok r)) ≡ ok s) ↔ ((r ≡ ok (codes "PONG")) × Graded took s)
  unfolding judge
  judge-ok took (ok reply) s = elim (Bool-cases (text_eq reply (codes "PONG"))) [
    | inl same ↦
        let p : reply ≡ codes "PONG" = (text_eq_iff reply (codes "PONG")).0 same in
        rw same (λ h. (ap ok p, (grade took s).0 h), λ h. (grade took s).1 h.1)
    | inr other ↦ rw other (λ h. cc, λ h. absurd (differs reply other h.0))
  ]
  judge-ok took (err e) s = (λ h. cc, λ h. cc)

  -- On a running blocking pool the check reports a status exactly if the server answered `PONG`
  -- before the deadline: `healthy` if that took no longer than the threshold, `degraded` if it took
  -- longer.
  pub check_ok_iff :
      (t : Time) (s : HealthStatus)
      → rt.accepts now ≡ true
      → (check rt redis self now ≡ done t (ok s)) ↔ (
          (ping redis self.url self.timeout now ≡ done t (ok (codes "PONG")))
          × (t < now + self.timeout)
          × Graded (t - now) s)
  check_ok_iff t s up = (to (cases_at (ping redis self.url self.timeout now) up refl), from)
    where
      to :
          InTimeOrError
          → check rt redis self now ≡ done t (ok s)
          → (ping redis self.url self.timeout now ≡ done t (ok (codes "PONG")))
            × (t < now + self.timeout)
            × Graded (t - now) s
      to (inr (u, e, ran)) h = cc
      to (inl (u, r, ran, soon, ended)) h =
          let same : u ≡ t = cc in
          let j : judge rt redis self (u - now) (ok (ok r)) ≡ ok s = cc in
          let (p, g) = (judge-ok (u - now) r s).0 j in
          (rw (← same, ← p) ran, rw (← same) soon, rw (← same) g)

      from :
          (ping redis self.url self.timeout now ≡ done t (ok (codes "PONG")))
            × (t < now + self.timeout)
            × Graded (t - now) s
          → check rt redis self now ≡ done t (ok s)
      from (p, soon, g) =
          check_of_probe t (ok (ok (ok (codes "PONG")))) (
            rt.timeout_done self.timeout probe now t (ok (ok (codes "PONG")))
              (unfold probe in rt.spawn_blocking_done _ now t (ok (codes "PONG")) up p) soon)
          ∙ ap (done t) ((judge-ok (t - now) (ok (codes "PONG")) s).1 (refl, g))

  unwinds :
      (client : redis.Client) (connection : redis.Connection) (opened connected : Time)
      → redis.open_url self.url now ≡ done opened (ok client)
      → redis.get_connection client opened ≡ done connected (ok connection)
      → max_duration < self.timeout + from_secs 1
      → ping redis self.url self.timeout now ≡ panicked connected
  unfolding ping
  unwinds client connection opened connected o c big =
      let over : ltb max_duration (self.timeout + from_secs 1) ≡ true = ground arith in
      rw (o, c, over)

  -- A timeout within a second of the largest duration makes the probe of a server that accepts the
  -- connection fail before `PING` is sent: the addition of the slack unwinds the task.
  pub check-overflow :
      (client : redis.Client) (connection : redis.Connection) (opened connected : Time)
      → rt.accepts now ≡ true
      → redis.open_url self.url now ≡ done opened (ok client)
      → redis.get_connection client opened ≡ done connected (ok connection)
      → connected < now + self.timeout
      → max_duration < self.timeout + from_secs 1
      → (e : rt.JoinError) × (check rt redis self now
          ≡ done connected
              (err (check_failed (codes "redis probe task failed: " ++ rt.join_error_text e))))
  unfolding judge probe
  check-overflow client connection opened connected up o c soon big =
      let (e, ran) =
        rt.spawn_blocking_panicked (ping redis self.url self.timeout) now connected up
          (unwinds client connection opened connected o c big) in
      (
        e,
        check_of_probe connected (ok (err e))
            (rt.timeout_done self.timeout probe now connected (err e) ran soon),
      )
