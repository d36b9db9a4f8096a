-- ===== src/UnitTests/Served.antt =====
-- src/checks/redis.rs, `check`: what it makes of the servers of its unit tests.
use healthkit.Base.{
  ◌+◌, ◌-◌, ◌≤◌, ◌<◌, ◌≡◌, refl, ap, ◌∙◌, inl, inr, true, false, codes, ◌++◌, Text, Result, ok, err,
  ltb, some, arith,
}
use healthkit.Async.{Time, done, panicked}
use healthkit.Async.Runtime.{Runtime, Late}
use healthkit.Duration.{Duration, from_secs, from_millis, max_duration}
use healthkit.Types.{HealthStatus}
use healthkit.Errors.{HealthCheckError, dependency_unavailable, check_timed_out}
use healthkit.Checks.Redis
use healthkit.Checks.Redis.{RedisClient, RedisCheck, ping, add_durations}
use healthkit.Checks.RedisProbed.{Probed, check-Probed}
use healthkit.Checks.RedisOutcomes.{probe, check_of_probe}
use healthkit.UnitTests.Harness.{ltb_ge}
use healthkit.UnitTests.Pinging.{Connects, Answers}

module _ (redis : RedisClient) (url : Text) (d : Duration) (now : Time) where
  -- Behind the connection, PING is what is left, if the slack can be added to the deadline.
  pub ping-Connects :
      (t : Time) (connection : redis.Connection)
      → Connects redis url now t connection
      → d + from_secs 1 ≤ max_duration
      → ping redis url d now ≡ redis.query (codes "PING") connection t
  unfolding ping add_durations
  ping-Connects t connection (u, client, opened, connected, from, to, timed) small =
      let fits : ltb max_duration (d + from_secs 1) ≡ false = ltb_ge _ _ small in
      let (reads, writes) = timed (some (d + from_secs 1)) in
      rw (opened, connected, fits, reads, writes) refl

module _ (rt : Runtime) (redis : RedisClient) (self : RedisCheck) (now : Time) where
  check-ping :
      (t : Time) (r : Result Text redis.RedisError)
      → rt.accepts now ≡ true
      → ping redis self.url self.timeout now ≡ done t r
      → t < now + self.timeout
      → Redis.check rt redis self now ≡ done t (Redis.judge rt redis self (t - now) (ok (ok r)))
  unfolding probe
  check-ping t r up e soon = check_of_probe rt redis self now t (ok (ok r)) (
      rt.timeout_done self.timeout (probe rt redis self now) now t (ok r)
        (rt.spawn_blocking_done _ now t r up e) soon)

  -- The check of a server that answers.
  pub check-Answers :
      (P : Result Text redis.RedisError → Type 0)
      → rt.accepts now ≡ true
      → Answers redis self.url P
      → from_millis 40 < self.timeout
      → self.timeout + from_secs 1 ≤ max_duration
      → (t : Time) × (r : Result Text redis.RedisError) × (now < t)
        × (t ≤ now + from_millis 40)
        × P r
        × (Redis.check rt redis self now ≡ done t (Redis.judge rt redis self (t - now) (ok (ok r))))
  check-Answers P up answers patient small =
      let (u, connection, connects, (t, r, after, soon, asked, is)) = answers now in
      let ran = ping-Connects redis self.url self.timeout now u connection connects small ∙ asked in
      (
        t,
        r,
        omega (arith, connects.4, after),
        omega (arith, connects.5, soon),
        is,
        check-ping t r up ran (omega (arith, connects.5, soon)),
      )

  -- An error of the client in time.
  pub check-error :
      (t : Time) (e : redis.RedisError)
      → rt.accepts now ≡ true
      → ping redis self.url self.timeout now ≡ done t (err e)
      → t < now + self.timeout
      → Redis.check rt redis self now
        ≡ done t (
            err (dependency_unavailable (codes "redis probe failed: " ++ redis.redis_error_text e)))
  unfolding Redis.judge
  check-error t e up ran soon = check-ping t (err e) up ran soon

  abbrev IsLate : Type 0
  IsLate = Late (now + self.timeout) (ping redis self.url self.timeout now)

  in_time :
      {t : Time} {r : Result Text redis.RedisError}
      → IsLate
      → ping redis self.url self.timeout now ≡ done t r
      → ¬ (t < now + self.timeout)
  in_time {t} late e soon = let l : now + self.timeout ≤ t = rw e at late in omega arith

  unwinds_in_time :
      {t : Time}
      → IsLate
      → ping redis self.url self.timeout now ≡ panicked t
      → ¬ (t < now + self.timeout)
  unwinds_in_time {t} late e soon = let l : now + self.timeout ≤ t = rw e at late in omega arith

  -- A probe that is not there at the deadline.
  times_out :
      (t : Time) (r : Result HealthStatus HealthCheckError)
      → rt.accepts now ≡ true
      → Late (now + self.timeout) (ping redis self.url self.timeout now)
      → Probed rt redis self now t r
      → r ≡ err (check_timed_out self.timeout)
  times_out t r up late (Probed.fast e soon le is) = absurd (in_time late e soon)
  times_out t r up late (Probed.slow e soon lt is) = absurd (in_time late e soon)
  times_out t r up late (Probed.wrong_reply reply e other soon is) = absurd (in_time late e soon)
  times_out t r up late (Probed.client_failed x e soon is) = absurd (in_time late e soon)
  times_out t r up late (Probed.task_failed j (inl down) soon is) = cc
  times_out t r up late (Probed.task_failed j (inr e) soon is) =
      absurd (unwinds_in_time late e soon)
  times_out t r up late (Probed.timed_out why from to is) = is

  pub check-Late :
      rt.accepts now ≡ true
      → Late (now + self.timeout) (ping redis self.url self.timeout now)
      → (t : Time) × (Redis.check rt redis self now ≡ done t (err (check_timed_out self.timeout)))
  check-Late up late =
      let (t, r, ran, probed) = check-Probed rt redis self now in
      (t, ran ∙ ap (λ r. done t r) (times_out t r up late probed))
