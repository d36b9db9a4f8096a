-- ===== src/Checks/RedisProbed.antt =====
-- src/checks/redis.rs, `check`: what it returns in each case, errors included.
use native.Mathlib.Decide.{dec_lt}
use healthkit.Base.{
  ◌-◌, ◌+◌, ◌≤◌, ◌<◌, ◌≡◌, refl, ◌≢◌, ◌⊎◌, inl, inr, true, false, Text, codes, ◌++◌, Result, ok,
  err, Bool-cases, arith,
}
use healthkit.Async.{Time, Outcome, done, panicked, hangs}
use healthkit.Async.Runtime.{Runtime, Late, elapsed_error}
use healthkit.Types.{HealthStatus, healthy, degraded}
use healthkit.Errors.{HealthCheckError, check_failed, check_timed_out, dependency_unavailable}
use healthkit.Registry.Groups.{text_eq_iff}
use healthkit.Registry.{text_eq}
use healthkit.Checks.Redis.{RedisClient, RedisCheck, ping, judge, check}
use healthkit.Checks.RedisOutcomes.{probe, check_of_probe}

-- What the check must return at the instant `t`.
pub data Probed (rt : Runtime) (redis : RedisClient) (self : RedisCheck) (now t : Time)
    (r : Result HealthStatus HealthCheckError) : Type 0 where
  fast :
      ping redis self.url self.timeout now ≡ done t (ok (codes "PONG"))
      → t < now + self.timeout
      → t - now ≤ self.warn_above
      → r ≡ ok healthy
      → Probed rt redis self now t r
  slow :
      ping redis self.url self.timeout now ≡ done t (ok (codes "PONG"))
      → t < now + self.timeout
      → self.warn_above < t - now
      → r ≡ ok degraded
      → Probed rt redis self now t r
  wrong_reply :
      (reply : Text)
      → ping redis self.url self.timeout now ≡ done t (ok reply)
      → reply ≢ codes "PONG"
      → t < now + self.timeout
      → r ≡ err (dependency_unavailable (codes "unexpected PING reply: " ++ reply))
      → Probed rt redis self now t r
  client_failed :
      (e : redis.RedisError)
      → ping redis self.url self.timeout now ≡ done t (err e)
      → t < now + self.timeout
      → r ≡ err (dependency_unavailable (codes "redis probe failed: " ++ redis.redis_error_text e))
      → Probed rt redis self now t r
  -- The pool refused the task, or the task unwound.
  task_failed :
      (e : rt.JoinError)
      → (rt.accepts now ≡ false) ⊎ (ping redis self.url self.timeout now ≡ panicked t)
      → t < now + self.timeout
      → r ≡ err (check_failed (codes "redis probe task failed: " ++ rt.join_error_text e))
      → Probed rt redis self now t r
  timed_out :
      (rt.accepts now ≡ false) ⊎ Late (now + self.timeout) (ping redis self.url self.timeout now)
      → now + self.timeout ≤ t
      → t ≤ now + self.timeout + rt.lag
      → r ≡ err (check_timed_out self.timeout)
      → Probed rt redis self now t r

module _ (rt : Runtime) (redis : RedisClient) (self : RedisCheck) (now : Time) where
  abbrev Concludes : Type 0
  Concludes =
      (t : Time) × (r : Result HealthStatus HealthCheckError) × (check rt redis self now ≡ done t r)
      × Probed rt redis self now t r

  cut_off :
      (rt.accepts now ≡ false) ⊎ Late (now + self.timeout) (ping redis self.url self.timeout now)
      → Late (now + self.timeout) (probe rt redis self now now)
      → Concludes
  unfolding judge
  cut_off why late =
      let (t, from, to, e) = rt.timeout_elapsed self.timeout (probe rt redis self now) now late in
      (
        t,
        err (check_timed_out self.timeout),
        check_of_probe rt redis self now t (err elapsed_error) e,
        Probed.timed_out why from to refl,
      )

  cut_off_cause :
      (t : Time)
      → (rt.accepts now ≡ false) ⊎ (ping redis self.url self.timeout now ≡ panicked t)
      → now + self.timeout ≤ t
      → (rt.accepts now ≡ false) ⊎ Late (now + self.timeout) (ping redis self.url self.timeout now)
  cut_off_cause t (inl down) l = inl down
  cut_off_cause t (inr e) l = inr (rw e l)

  -- A task error that is there at `t`.
  task_concludes :
      (t : Time) (j : rt.JoinError)
      → (rt.accepts now ≡ false) ⊎ (ping redis self.url self.timeout now ≡ panicked t)
      → probe rt redis self now now ≡ done t (err j)
      → Concludes
  unfolding judge
  task_concludes t j why e = elim (dec_lt t (now + self.timeout)) [
    | yes soon ↦ (
      t,
      err (check_failed (codes "redis probe task failed: " ++ rt.join_error_text j)),
      check_of_probe rt redis self now t (ok (err j))
          (rt.timeout_done self.timeout (probe rt redis self now) now t (err j) e soon),
      Probed.task_failed j why soon refl,
    )
    | no late ↦ cut_off (cut_off_cause t why (omega arith)) (rw e (omega arith))
  ]

  judged :
      (t : Time) (r : Result Text redis.RedisError)
      → ping redis self.url self.timeout now ≡ done t r
      → t < now + self.timeout
      → Probed rt redis self now t (judge rt redis self (t - now) (ok (ok r)))
  unfolding judge
  judged t (err e) ran soon = Probed.client_failed e ran soon refl
  judged t (ok reply) ran soon = elim (Bool-cases (text_eq reply (codes "PONG"))) [
    | inr other ↦ rw other (Probed.wrong_reply reply ran (λ e. not_pong e other) soon refl)
    | inl same ↦
        let p : reply ≡ codes "PONG" = (text_eq_iff reply (codes "PONG")).0 same in
        elim (dec_lt self.warn_above (t - now)) [
          | yes above ↦ Probed.slow (rw (← p) ran) soon above (rw same (ground arith))
          | no within ↦ Probed.fast (rw (← p) ran) soon (omega arith) (rw same (ground arith))
        ]
  ]
    where
      not_pong : reply ≡ codes "PONG" → ¬ (text_eq reply (codes "PONG") ≡ false)
      not_pong e e' = let same = (text_eq_iff reply (codes "PONG")).1 e in cc

  ran_task :
      (o : Outcome (Result Text redis.RedisError))
      → rt.accepts now ≡ true
      → ping redis self.url self.timeout now ≡ o
      → Concludes
  unfolding probe
  ran_task (done t r) up e = elim (dec_lt t (now + self.timeout)) [
    | no late ↦
        cut_off (inr (rw e (omega arith)))
          (rw (rt.spawn_blocking_done _ now t r up e) (omega arith))
    | yes soon ↦ (
      t,
      judge rt redis self (t - now) (ok (ok r)),
      check_of_probe rt redis self now t (ok (ok r)) (
          rt.timeout_done self.timeout (probe rt redis self now) now t (ok r)
            (rt.spawn_blocking_done _ now t r up e) soon),
      judged t r e soon,
    )
  ]
  ran_task (panicked t) up e =
      let (j, failed) = rt.spawn_blocking_panicked _ now t up e in task_concludes t j (inr e) failed
  ran_task hangs up e = cut_off (inr (rw e tt)) (rw (rt.spawn_blocking_hangs _ now up e) tt)

  -- Whatever the server, its client and the blocking pool do, the check returns, and what it must:
  -- `healthy` or `degraded` for `PONG` in time, by the threshold; an unavailable dependency with the
  -- reply, or with the client's error; a failed check with the error of the task, if that unwound or
  -- was refused; and the deadline, with no earlier end than the deadline and no later one than the
  -- lag of the timer, in all other cases.
  pub check-Probed :
      (t : Time) × (r : Result HealthStatus HealthCheckError) × (check rt redis self now ≡ done t r)
      × Probed rt redis self now t r
  unfolding probe
  check-Probed = elim (Bool-cases (rt.accepts now)) [
    | inl up ↦ ran_task (ping redis self.url self.timeout now) up refl
    | inr down ↦
        let (t, j, refused) = rt.spawn_blocking_refused _ now down in
        task_concludes t j (inl down) refused
  ]
