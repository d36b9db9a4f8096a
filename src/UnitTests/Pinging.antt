-- ===== src/UnitTests/Pinging.antt =====
-- src/checks/redis.rs, the unit tests of the redis check.
use healthkit.Base.{
  ℕ, All, ◌++◌, ◌+◌, ◌≤◌, ◌<◌, ◌≡◌, codes, Text, Option, none, some, [], ◌∷◌, Result, ok, err,
  length, ◌==◌,
}
use healthkit.Async.{Time, Async, done, ◌>>=◌}
use healthkit.Async.Runtime.{Runtime, Late}
use healthkit.Duration.{Duration, from_secs, from_millis}
use healthkit.Types.{healthy, degraded}
use healthkit.Registry.{Features, new, check_all, text_eq}
use healthkit.Checks.Redis
use healthkit.Checks.Redis.{RedisClient}
use healthkit.UnitTests.Harness.{◌>>◌, assert, unwrap, first, status_eq, blocking}
use healthkit.UnitTests.Querying.{fails_with, times_out_after}

abbrev pub IsPrintable : ℕ → Type 0
IsPrintable c = 32 ≤ c

abbrev pub line : Text → Text
line text = text ++ 13 ∷ 10 ∷ []

module _ (redis : RedisClient) where
  open redis use {
    Client, Connection, RedisError, open_url, get_connection, set_read_timeout, set_write_timeout,
    query,
  }

  -- The client opens the URL and connects to it, in less than 20 milliseconds; the timeouts are set.
  abbrev pub Connects : Text → Time → Time → Connection → Type 0
  Connects url now t connection =
      (u : Time) × (client : Client) × (open_url url now ≡ done u (ok client))
      × (get_connection client u ≡ done t (ok connection))
      × (now < t)
      × (t ≤ now + from_millis 20)
      × ((d : Option Duration)
          → (set_read_timeout connection d t ≡ done t (ok connection))
            × (set_write_timeout connection d t ≡ done t (ok connection)))

  -- A server at the URL answers PING, in less than 20 milliseconds.
  abbrev pub Answers : Text → (Result Text RedisError → Type 0) → Type 0
  Answers url P =
      (now : Time)
      → (t : Time) × (connection : Connection) × Connects url now t connection
        × ((u : Time) × (r : Result Text RedisError) × (t ≤ u)
            × (u ≤ t + from_millis 20)
            × (query (codes "PING") connection t ≡ done u r)
            × P r)

  abbrev pub IsError : Result Text RedisError → Type 0
  IsError (ok reply) = ⊥
  IsError (err e) = Unit

  -- The servers that the tests start, by their URLs, and what the client finds there.
  pub record Sockets : Type 0 where
    pub fake_redis : Text → Async Text
    pub silent_redis : Async Text
    pub refused_addr : Async Text
    -- A reply that begins with `+` is its text.
    pub simple_string :
        (text : Text) (now : Time)
        → All IsPrintable text
        → (t : Time) × (url : Text) × (fake_redis (b'+' ∷ line text) now ≡ done t url)
          × Answers url (λ r. r ≡ ok text)
    -- One that begins with `-` is an error.
    pub error_string :
        (text : Text) (now : Time)
        → All IsPrintable text
        → (t : Time) × (url : Text) × (fake_redis (b'-' ∷ line text) now ≡ done t url)
          × Answers url IsError
    -- One that does not reply lets the client wait.
    pub silence :
        (now : Time)
        → (t : Time) × (url : Text) × (silent_redis now ≡ done t url)
          × ((begun : Time)
              → (u : Time) × (connection : Connection) × Connects url begun u connection
                × Late (begun + from_millis 100) (query (codes "PING") connection u))
    pub refusal :
        (now : Time)
        → (t : Time) × (url : Text) × (refused_addr now ≡ done t url)
          × ((begun : Time)
              → (u : Time) × (client : Client) × (v : Time) × (e : RedisError) × (open_url url begun
                  ≡ done u (ok client))
                × (get_connection client u ≡ done v (err e))
                × (v ≤ begun + from_millis 20))
    pub invalid_url :
        (begun : Time)
        → (e : RedisError) × (open_url (codes "not-a-url") begun ≡ done begun (err e))

-- The URL of a live server: the argument is `std::env::var(name).ok()`.
unfoldable pub live_url : (Text → Option Text) → Text
live_url var = elim (var (codes "HEALTHKIT_REDIS_URL")) [
  | some url ↦ url
  | none ↦ codes "redis://127.0.0.1"
]

module _ (rt : Runtime) (features : Features) (redis : RedisClient) (sockets : Sockets redis) where
  open sockets use {fake_redis, silent_redis, refused_addr}

  unfoldable pub healthy_when_ping_replies_pong : Async (Unit {0})
  unfolding Redis.new Redis.check
  healthy_when_ping_replies_pong = do
    url ← fake_redis (b'+' ∷ line (codes "PONG"))
    r ← Redis.check rt redis (Redis.new url (from_secs 5) 500)
    status ← unwrap r
    assert (status_eq status healthy)

  unfoldable pub degraded_when_latency_exceeds_threshold : Async (Unit {0})
  unfolding Redis.new Redis.check
  degraded_when_latency_exceeds_threshold = do
    url ← fake_redis (b'+' ∷ line (codes "PONG"))
    r ← Redis.check rt redis (Redis.new url (from_secs 5) 0)
    status ← unwrap r
    assert (status_eq status degraded)

  unfoldable pub unhealthy_on_error_reply : Async (Unit {0})
  unfolding Redis.new Redis.check
  unhealthy_on_error_reply = do
    url ← fake_redis (b'-' ∷ line (codes "ERR boom"))
    r ← Redis.check rt redis (Redis.new url (from_secs 5) 500)
    fails_with r (codes "redis probe failed")

  unfoldable pub unhealthy_on_unexpected_reply : Async (Unit {0})
  unfolding Redis.new Redis.check
  unhealthy_on_unexpected_reply = do
    url ← fake_redis (b'+' ∷ line (codes "PANG"))
    r ← Redis.check rt redis (Redis.new url (from_secs 5) 500)
    fails_with r (codes "unexpected PING reply")

  unfoldable pub unhealthy_when_connection_refused : Async (Unit {0})
  unfolding Redis.new Redis.check
  unhealthy_when_connection_refused = do
    url ← refused_addr
    r ← Redis.check rt redis (Redis.new url (from_secs 5) 500)
    fails_with r (codes "redis probe failed")

  unfoldable pub unhealthy_on_invalid_url : Async (Unit {0})
  unfolding Redis.new Redis.check
  unhealthy_on_invalid_url = do
    r ← Redis.check rt redis (Redis.new (codes "not-a-url") (from_secs 5) 500)
    fails_with r (codes "redis probe failed")

  unfoldable pub times_out_when_probe_exceeds_deadline : Async (Unit {0})
  unfolding Redis.new Redis.check
  times_out_when_probe_exceeds_deadline = do
    url ← silent_redis
    r ← Redis.check rt redis (Redis.new url (from_millis 100) 500)
    times_out_after r (from_millis 100)

  -- It is ignored unless asked for, and wants a live server.
  unfoldable pub live_redis_reports_healthy : (Text → Option Text) → Async (Unit {0})
  unfolding Redis.new Redis.check live_url
  live_redis_reports_healthy var = do
    r ← Redis.check rt redis (Redis.new (live_url var) (from_secs 2) 500)
    status ← unwrap r
    assert (status_eq status healthy)

  unfoldable pub register_integrates_with_registry : Async (Unit {0})
  unfolding new Redis.new Redis.register check_all blocking text_eq
  register_integrates_with_registry = do
    url ← fake_redis (b'+' ∷ line (codes "PONG"))
    let (registry, s) = new []
    s ←
        blocking rt
          (Redis.register rt redis (Redis.new url (from_secs 5) 500) registry (codes "cache")) s
    (results, emitted) ← check_all rt features s registry
    assert (length results == 1)
    result ← first results
    assert (text_eq result.name (codes "cache"))
    assert (status_eq result.status healthy)

unfoldable pub builder_overrides_are_applied : Async (Unit {0})
unfolding Redis.new Redis.with_timeout Redis.with_warn_above_ms text_eq
builder_overrides_are_applied = do
  let check =
      Redis.with_warn_above_ms
        (Redis.with_timeout (Redis.new (codes "redis://example.test") (from_secs 30) 0)
          (from_secs 5))
        50
  assert (check.timeout == from_secs 5)
  assert (check.warn_above == from_millis 50)
  assert (text_eq check.url (codes "redis://example.test"))
