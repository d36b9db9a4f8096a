-- ===== src/UnitTests/PingingPasses.antt =====
-- src/checks/redis.rs, the unit tests of the redis check: that they pass.
use healthkit.Base.{
  ◌-◌, ◌≡◌, refl, ◌∙◌, inr, true, false, codes, Text, Option, List, [], ◌∷◌, Result, ok, err, ltb,
  All, arith,
}
use healthkit.Async.{Time, Async, done}
use healthkit.Async.Runtime.{Runtime}
use healthkit.Duration.{from_secs, from_millis}
use healthkit.Types.{healthy}
use healthkit.Registry.{Features, new, fold_outcome, text_eq, add_check}
use healthkit.Registry.Latest.{check_all-latest}
use healthkit.Checks.Redis
use healthkit.Checks.Redis.{RedisClient, RedisCheck, ping, add_durations}
use healthkit.UnitTests.Harness.{
  Passes, Passes-continue, ◌&◌, ltb_lt, ltb_ge, blocking-done, made, empty,
}
use healthkit.UnitTests.Expositions.{contains}
use healthkit.UnitTests.Querying.{fails_with}
use healthkit.UnitTests.Pinging
use healthkit.UnitTests.Pinging.{Sockets, Connects, Answers, IsError, line}
use healthkit.UnitTests.Served.{ping-Connects, check-Answers, check-error, check-Late}

module _ (rt : Runtime) (features : Features) (redis : RedisClient) (sockets : Sockets redis)
    (now : Time) (up : (t : Time) → rt.accepts t ≡ true) where
  pong-Passes : Passes (Pinging.healthy_when_ping_replies_pong rt features redis sockets now)
  unfolding Pinging.healthy_when_ping_replies_pong Redis.new Redis.judge text_eq
  pong-Passes =
      let (t, url, served, answers) = sockets.simple_string (codes "PONG") now (omega arith) in
      let check = Redis.new url (from_secs 5) 500 in
      let (u, r, after, soon, is, ran) =
        check-Answers rt redis check t (λ r. r ≡ ok (codes "PONG")) (up t) answers (omega arith)
          (omega arith) in
      let quick : ltb (from_millis 500) (u - t) ≡ false = ltb_ge _ _ (omega arith) in
      Passes-continue _ _ served (Passes-continue _ _ ran (rw (is, quick) (u, refl)))

  slow_pong-Passes :
      Passes (Pinging.degraded_when_latency_exceeds_threshold rt features redis sockets now)
  unfolding Pinging.degraded_when_latency_exceeds_threshold Redis.new Redis.judge text_eq
  slow_pong-Passes =
      let (t, url, served, answers) = sockets.simple_string (codes "PONG") now (omega arith) in
      let check = Redis.new url (from_secs 5) 0 in
      let (u, r, after, soon, is, ran) =
        check-Answers rt redis check t (λ r. r ≡ ok (codes "PONG")) (up t) answers (omega arith)
          (omega arith) in
      let above : ltb 0 (u - t) ≡ true = ltb_lt _ _ (omega arith) in
      Passes-continue _ _ served (Passes-continue _ _ ran (rw (is, above) (u, refl)))

  pang-Passes : Passes (Pinging.unhealthy_on_unexpected_reply rt features redis sockets now)
  unfolding Pinging.unhealthy_on_unexpected_reply Redis.new Redis.judge text_eq contains
  pang-Passes =
      let (t, url, served, answers) = sockets.simple_string (codes "PANG") now (omega arith) in
      let check = Redis.new url (from_secs 5) 500 in
      let (u, r, after, soon, is, ran) =
        check-Answers rt redis check t (λ r. r ≡ ok (codes "PANG")) (up t) answers (omega arith)
          (omega arith) in
      Passes-continue _ _ served (Passes-continue _ _ ran (rw is (u, refl)))

  error-Passes : Passes (Pinging.unhealthy_on_error_reply rt features redis sockets now)
  unfolding Pinging.unhealthy_on_error_reply Redis.new Redis.judge contains
  error-Passes =
      let (t, url, served, answers) = sockets.error_string (codes "ERR boom") now (omega arith) in
      let check = Redis.new url (from_secs 5) 500 in
      let (u, r, after, soon, is, ran) =
        check-Answers rt redis check t (IsError redis) (up t) answers (omega arith) (omega arith) in
      Passes-continue _ _ served (Passes-continue _ _ ran (go (u - t) u r is))
    where
      go :
          (took u : Time) (r : Result Text redis.RedisError)
          → IsError redis r
          → Passes (
              fails_with
                (Redis.judge rt redis (Redis.new [] (from_secs 5) 500) took (ok (ok r)))
                (codes "redis probe failed")
                u)
      go took u (ok reply) is = absurd is
      go took u (err e) is = (u, refl)

  refused-Passes : Passes (Pinging.unhealthy_when_connection_refused rt features redis sockets now)
  unfolding Pinging.unhealthy_when_connection_refused Redis.new contains ping
  refused-Passes =
      let (t, url, served, refuses) = sockets.refusal now in
      let (u, client, v, e, opened, refused, soon) = refuses t in
      Passes-continue _ _ served (
        Passes-continue _ _
          (check-error rt redis (Redis.new url (from_secs 5) 500) t v e (up t)
            (rw (opened, refused) refl) (omega arith))
          (_, refl))

  invalid-Passes : Passes (Pinging.unhealthy_on_invalid_url rt features redis sockets now)
  unfolding Pinging.unhealthy_on_invalid_url Redis.new contains ping
  invalid-Passes =
      let (e, invalid) = sockets.invalid_url now in
      Passes-continue _ _
        (check-error rt redis (Redis.new (codes "not-a-url") (from_secs 5) 500) now now e (up now)
          (rw invalid refl) (omega arith))
        (_, refl)

  silent-Passes :
      Passes (Pinging.times_out_when_probe_exceeds_deadline rt features redis sockets now)
  unfolding Pinging.times_out_when_probe_exceeds_deadline Redis.new
  silent-Passes =
      let (t, url, served, silent) = sockets.silence now in
      let check = Redis.new url (from_millis 100) 500 in
      let (u, connection, connects, waits) = silent t in
      let asked = ping-Connects redis url (from_millis 100) t u connection connects (omega arith) in
      let (v, ran) = check-Late rt redis check t (up t) (rw asked waits) in
      Passes-continue _ _ served (Passes-continue _ _ ran (v, refl))

  register-Passes : Passes (Pinging.register_integrates_with_registry rt features redis sockets now)
  unfolding Pinging.register_integrates_with_registry new Redis.new Redis.register Redis.judge
      add_check text_eq fold_outcome
  register-Passes =
      let (t, url, served, answers) = sockets.simple_string (codes "PONG") now (omega arith) in
      let check = Redis.new url (from_secs 5) 500 in
      let (u, r, after, soon, is, ran) =
        check-Answers rt redis check t (λ r. r ≡ ok (codes "PONG")) (up t) answers (omega arith)
          (omega arith) in
      let quick : ltb (from_millis 500) (u - t) ≡ false = ltb_ge _ _ (omega arith) in
      let register = Redis.register rt redis check made (codes "cache") in
      let healthy_ran : Redis.check rt redis check t ≡ done u (ok healthy) =
        ran ∙ rw (is, quick) refl in
      Passes-continue _ _ served (
        Passes-continue _ _ (blocking-done rt register empty t (up t)) (
          Passes-continue _ _
            (check_all-latest rt t features (register empty) made ((u, ok healthy) ∷ [])
              (healthy_ran, inr (omega arith), tt))
            (_, refl)))

module _ (rt : Runtime) (features : Features) (redis : RedisClient) (sockets : Sockets redis)
    (now : Time) where
  -- The test of a live server passes if there is one that answers PONG within 40 milliseconds.
  live-Passes :
      (var : Text → Option Text)
      → ((t : Time) → rt.accepts t ≡ true)
      → Answers redis (Pinging.live_url var) (λ r. r ≡ ok (codes "PONG"))
      → Passes (Pinging.live_redis_reports_healthy rt features redis sockets var now)
  unfolding Pinging.live_redis_reports_healthy Redis.new Redis.judge text_eq
  live-Passes var up answers =
      let check = Redis.new (Pinging.live_url var) (from_secs 2) 500 in
      let (u, r, after, soon, is, ran) =
        check-Answers rt redis check now (λ r. r ≡ ok (codes "PONG")) (up now) answers (omega arith)
          (omega arith) in
      let quick : ltb (from_millis 500) (u - now) ≡ false = ltb_ge _ _ (omega arith) in
      Passes-continue _ _ ran (rw (is, quick) (u, refl))

builder-Passes : (now : Time) → Passes (Pinging.builder_overrides_are_applied now)
unfolding Pinging.builder_overrides_are_applied Redis.new Redis.with_timeout
    Redis.with_warn_above_ms text_eq
builder-Passes now = (now, refl)

module _ (rt : Runtime) (features : Features) (redis : RedisClient) (sockets : Sockets redis) where
  -- The tests, in the order of the file.
  abbrev pub redis_tests : List (Async (Unit {0}))
  redis_tests =
      Pinging.healthy_when_ping_replies_pong rt features redis sockets
      ∷ Pinging.degraded_when_latency_exceeds_threshold rt features redis sockets
      ∷ Pinging.unhealthy_on_error_reply rt features redis sockets
      ∷ Pinging.unhealthy_on_unexpected_reply rt features redis sockets
      ∷ Pinging.unhealthy_when_connection_refused rt features redis sockets
      ∷ Pinging.unhealthy_on_invalid_url rt features redis sockets
      ∷ Pinging.times_out_when_probe_exceeds_deadline rt features redis sockets
      ∷ Pinging.builder_overrides_are_applied
      ∷ Pinging.register_integrates_with_registry rt features redis sockets
      ∷ []

  -- On each runtime that takes blocking tasks, and with a client that finds the replies of the
  -- servers within 40 milliseconds, each unit test of the redis check but the one of a live server
  -- ends, whenever it is started, and no assertion of it fails.
  pub redis_tests-Passes :
      (now : Time)
      → ((t : Time) → rt.accepts t ≡ true)
      → All (λ test. Passes (test now)) redis_tests
  redis_tests-Passes now up =
      pong-Passes rt features redis sockets now up
      & slow_pong-Passes rt features redis sockets now up
      & error-Passes rt features redis sockets now up
      & pang-Passes rt features redis sockets now up
      & refused-Passes rt features redis sockets now up
      & invalid-Passes rt features redis sockets now up
      & silent-Passes rt features redis sockets now up
      & builder-Passes now
      & register-Passes rt features redis sockets now up
      & tt
