-- ===== src/Checks/Redis.antt =====
-- src/checks/redis.rs: the PING probe on a blocking thread, under a deadline.
use healthkit.Base.{◌+◌, Text, codes, ◌++◌, Result, ok, err, ltb, Option, some, if◌then◌else◌}
use healthkit.Async.{Async, done, panicked, pure, instant_now, elapsed, ◌>>=◌}
use healthkit.Async.Runtime.{Runtime, Elapsed}
use healthkit.Duration.{Duration, from_millis, from_secs, max_duration}
use healthkit.Types.{HealthStatus, healthy, degraded}
use healthkit.Errors.{HealthCheckError, check_failed, check_timed_out, dependency_unavailable}
use healthkit.Registry.{HealthRegistry, Store, add_check, text_eq}

-- What `ping` uses of the redis crate; each call may take time, block or unwind.
pub record RedisClient : Type 1 where
  pub Client : Type 0
  pub Connection : Type 0
  pub RedisError : Type 0
  pub redis_error_text : RedisError → Text
  -- `Client::open(url)`
  pub open_url : Text → Async (Result Client RedisError)
  pub get_connection : Client → Async (Result Connection RedisError)
  -- These set the deadline of a read or a write on the connection.
  pub set_read_timeout : Connection → Option Duration → Async (Result Connection RedisError)
  pub set_write_timeout : Connection → Option Duration → Async (Result Connection RedisError)
  -- `cmd(…).query::<String>(&mut connection)`
  pub query : Text → Connection → Async (Result Text RedisError)

pub record RedisCheck : Type 0 where
  pub url : Text
  pub timeout : Duration
  pub warn_above : Duration

unfoldable pub new : Text → Duration → Duration → RedisCheck
new url timeout warn_above_ms = record {
  url = url;
  timeout = timeout;
  warn_above = from_millis warn_above_ms;
}

unfoldable pub with_timeout : RedisCheck → Duration → RedisCheck
with_timeout check timeout = record check { timeout = timeout }

unfoldable pub with_warn_above_ms : RedisCheck → Duration → RedisCheck
with_warn_above_ms check warn_above_ms = record check { warn_above = from_millis warn_above_ms }

-- `?` behind a blocking call.
infixl 5 ◌>>?◌
abbrev pub ◌>>?◌ :
    {A B E : Type 0} → Async (Result A E) → (A → Async (Result B E)) → Async (Result B E)
m >>? f = m >>= λ r. elim r [ ok a ↦ f a | err e ↦ pure (err e) ]

-- `a + b` on durations: it unwinds where the sum does not fit.
unfoldable pub add_durations : Duration → Duration → Async Duration
add_durations a b now =
    let sum : Duration = a + b in if ltb max_duration sum then panicked now else done now sum

module _ (redis : RedisClient) where
  open redis use {
    RedisError, redis_error_text, open_url, get_connection, set_read_timeout, set_write_timeout,
    query,
  }

  unfoldable pub ping : Text → Duration → Async (Result Text RedisError)
  unfolding add_durations
  ping url io_deadline = open_url url >>? λ client. get_connection client >>? λ connection.
      (add_durations io_deadline (from_secs 1) >>= λ slack.
      set_read_timeout connection (some slack) >>? λ connection'.
      set_write_timeout connection' (some slack) >>? λ connection''.
      query (codes "PING") connection'')

module _ (rt : Runtime) (redis : RedisClient) where
  -- The match of `check` on what the probe came to.
  unfoldable pub judge :
      RedisCheck
      → Duration
      → Result (Result (Result Text redis.RedisError) rt.JoinError) Elapsed
      → Result HealthStatus HealthCheckError
  unfolding text_eq
  judge check took (ok (ok (ok reply))) =
      if text_eq reply (codes "PONG")
      then (if ltb check.warn_above took then ok degraded else ok healthy)
      else err (dependency_unavailable (codes "unexpected PING reply: " ++ reply))
  judge check took (ok (ok (err e))) =
      err (dependency_unavailable (codes "redis probe failed: " ++ redis.redis_error_text e))
  judge check took (ok (err e)) =
      err (check_failed (codes "redis probe task failed: " ++ rt.join_error_text e))
  judge check took (err e) = err (check_timed_out check.timeout)

  unfoldable pub check : RedisCheck → Async (Result HealthStatus HealthCheckError)
  check self = do
    start ← instant_now
    probe ← rt.timeout self.timeout (rt.spawn_blocking (ping redis self.url self.timeout))
    took ← elapsed start
    pure (judge self took probe)

  unfoldable pub register : RedisCheck → HealthRegistry → Text → Store → Store
  unfolding add_check check
  register self registry name s = add_check registry name (check self) s
