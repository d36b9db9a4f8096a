-- ===== src/Examples/Servers.antt =====
-- src/checks/redis.rs: servers as the unit tests of the redis check start them. The URL of a server
-- is what it replies.
use healthkit.Base.{
  ◌+◌, ◌≡◌, refl, ap, false, Text, codes, [], ◌∷◌, Result, ok, err, All, ◌==◌, if◌then◌else◌, arith,
}
use healthkit.Async.{Async, done, hangs}
use healthkit.Duration.{from_millis}
use healthkit.Registry.{text_eq}
use healthkit.Checks.Redis.{RedisClient}
use healthkit.UnitTests.Harness.{Passes}
use healthkit.UnitTests.Pinging.{Sockets, IsPrintable, line}
use healthkit.UnitTests.PingingPasses.{redis_tests, redis_tests-Passes}
use healthkit.Examples.Fixtures.{tireless, with_metrics}

-- The text before the end of its line.
abbrev unline : Text → Text
unline [] = []
unline (c ∷ s) = let rest = unline s in if c == 13 then [] else c ∷ rest

unline-line : (s : Text) → All IsPrintable s → unline (line s) ≡ s
unline-line [] h = refl
unline-line (c ∷ s) h =
    let inside : (c == 13) ≡ false = ground arith in rw inside (ap (λ t. c ∷ t) (unline-line s h.1))

abbrev answer : Text → Async (Result Text Text)
answer [] = λ now. hangs
answer (c ∷ rest) = λ now.
    if c == b'+'
    then done now (ok (unline rest))
    else if c == b'-'
    then done now (err rest)
    else hangs

abbrev client : RedisClient
client = record {
  Client = Text;
  Connection = Text;
  RedisError = Text;
  redis_error_text = λ e. e;
  open_url = λ url now.
      done now (if text_eq url (codes "not-a-url") then err (codes "no scheme") else ok url);
  get_connection = λ url now.
      if text_eq url (codes "refused")
      then done now (err (codes "connection refused"))
      else done (now + from_millis 1) (ok url);
  set_read_timeout = λ connection d now. done now (ok connection);
  set_write_timeout = λ connection d now. done now (ok connection);
  query = λ command. answer;
}

abbrev sockets : Sockets client
unfolding text_eq
sockets = record {
  fake_redis = λ reply now. done now reply;
  silent_redis = λ now. done now (codes "silent");
  refused_addr = λ now. done now (codes "refused");
  simple_string = λ text now printable. (
    now,
    b'+' ∷ line text,
    refl,
    λ u. (
      u + from_millis 1,
      b'+' ∷ line text,
      (u, b'+' ∷ line text, refl, refl, omega arith, omega arith, λ d. (refl, refl)),
      (
        u + from_millis 1,
        ok text,
        omega arith,
        omega arith,
        rw (unline-line text printable) refl,
        refl,
      ),
    ),
  );
  error_string = λ text now printable. (
    now,
    b'-' ∷ line text,
    refl,
    λ u. (
      u + from_millis 1,
      b'-' ∷ line text,
      (u, b'-' ∷ line text, refl, refl, omega arith, omega arith, λ d. (refl, refl)),
      (u + from_millis 1, err (line text), omega arith, omega arith, refl, tt),
    ),
  );
  silence = λ now. (
    now,
    codes "silent",
    refl,
    λ u. (
      u + from_millis 1,
      codes "silent",
      (u, codes "silent", refl, refl, omega arith, omega arith, λ d. (refl, refl)),
      tt,
    ),
  );
  refusal = λ now. (
    now,
    codes "refused",
    refl,
    λ u. (u, codes "refused", u, codes "connection refused", refl, refl, omega arith),
  );
  invalid_url = λ now. (codes "no scheme", refl);
}

redis_tests_run : All (λ test. Passes (test 7)) (redis_tests tireless with_metrics client sockets)
redis_tests_run = redis_tests-Passes tireless with_metrics client sockets 7 (λ t. refl)
