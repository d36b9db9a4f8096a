-- ===== src/UnitTests/Harness.antt =====
-- What the unit tests are written with: assertions, `unwrap`, indexing, `find`, the sleep of tokio,
-- and registrations on the blocking pool. A failed one unwinds the test.
use healthkit.Base.{
  ℕ, ◌+◌, ◌≤◌, ◌≡◌, refl, ◌<◌, ltb, leb, codes, arith, Bool, true, false, Text, List, [], ◌∷◌,
  Option, none, some, Result, ok, err, if◌then◌else◌,
}
use healthkit.Async.{Time, Outcome, Async, continue, done, panicked, pure, ◌>>=◌}
use healthkit.Async.Runtime.{Runtime}
use healthkit.Duration.{Duration, from_secs, from_millis}
use healthkit.Types.{HealthStatus, healthy, degraded, unhealthy, CheckResult}
use healthkit.Errors.{HealthCheckError, check_timed_out}
use healthkit.Registry.{
  RegisteredCheck, run_one, HealthRegistry, Store, text_eq, add_check, add_check_to_group,
  add_check_async, add_check_to_group_async,
}
use healthkit.Registry.Reports.{concluded, run_one-Late}

infixl 5 ◌>>◌
abbrev pub ◌>>◌ : {B : Type 0} → Async (Unit {0}) → Async B → Async B
m >> k = m >>= λ u. k

-- `assert!`
abbrev pub assert : Bool → Async (Unit {0})
assert true now = done now tt
assert false now = panicked now

-- `.unwrap()` and `.expect(…)`
abbrev pub unwrap : {A E : Type 0} → Result A E → Async A
unwrap (ok a) now = done now a
unwrap (err e) now = panicked now

abbrev pub unwrap_some : {A : Type 0} → Option A → Async A
unwrap_some (some a) now = done now a
unwrap_some none now = panicked now

-- `results[0]`
abbrev pub first : List CheckResult → Async CheckResult
first [] now = panicked now
first (r ∷ rs) now = done now r

-- `results.iter().find(|r| r.name == …)`
abbrev pub find_name : Text → List CheckResult → Option CheckResult
unfolding text_eq
find_name name [] = none
find_name name (r ∷ rs) = if text_eq r.name name then some r else find_name name rs

-- `PartialEq` of the statuses
abbrev pub status_eq : HealthStatus → HealthStatus → Bool
status_eq healthy healthy = true
status_eq degraded degraded = true
status_eq unhealthy unhealthy = true
status_eq _ _ = false

-- `message.as_deref() == Some(…)`
abbrev pub message_is : Option Text → Text → Bool
unfolding text_eq
message_is none text = false
message_is (some m) text = text_eq m text

abbrev pub is_none : Option Text → Bool
is_none none = true
is_none (some m) = false

abbrev pub is_empty : {A : Type 0} → List A → Bool
is_empty [] = true
is_empty (x ∷ xs) = false

-- `tokio::time::sleep`: "Waits until duration has elapsed." It may wake late, within the lag of the
-- timer.
pub record Sleep (lag : Duration) : Type 0 where
  pub sleep : Duration → Async (Unit {0})
  pub sleep_done :
      (d : Duration) (now : Time)
      → (t : Time) × (now + d ≤ t) × (t ≤ now + d + lag) × (sleep d now ≡ done t tt)

-- A check that sleeps before it returns.
abbrev pub slow :
    {lag : Duration} → Sleep lag → Duration → Async (Result HealthStatus HealthCheckError)
slow timer d = do timer.sleep d; pure (ok healthy)

-- `spawn_blocking(move || …).await.unwrap()`, of registrations.
unfoldable pub blocking : Runtime → (Store → Store) → Store → Async Store
blocking rt registrations s = do r ← rt.spawn_blocking (pure (registrations s)); unwrap r

pub blocking-done :
    (rt : Runtime) (registrations : Store → Store) (s : Store) (now : Time)
    → rt.accepts now ≡ true
    → blocking rt registrations s now ≡ done now (registrations s)
unfolding blocking
blocking-done rt registrations s now up =
    rw (rt.spawn_blocking_done (pure (registrations s)) now now (registrations s) up refl)

module _ (rt : Runtime) (up : (t : Time) → rt.accepts t ≡ true) (r : HealthRegistry) where
  -- The registrations from inside a runtime, on one that takes the task.
  pub add_check_async-done :
      (name : Text) (check : Async (Result HealthStatus HealthCheckError)) (s : Store) (now : Time)
      → add_check_async rt r name check s now ≡ done now (add_check r name check s, ok tt)
  unfolding add_check_async add_check
  add_check_async-done name check s now =
      rw (rt.spawn_blocking_done (pure (add_check r name check s)) now now _ (up now) refl)

  pub add_check_to_group_async-done :
      (group name : Text) (check : Async (Result HealthStatus HealthCheckError)) (s : Store)
      (now : Time)
      → add_check_to_group_async rt r group name check s now
        ≡ done now (add_check_to_group r group name check s, ok tt)
  unfolding add_check_to_group_async add_check_to_group
  add_check_to_group_async-done group name check s now = rw (
      rt.spawn_blocking_done (pure (add_check_to_group r group name check s)) now now _ (up now)
        refl)

-- The test ends, and no assertion of it fails.
abbrev pub Passes : Outcome (Unit {0}) → Type 0
Passes o = (t : Time) × (o ≡ done t tt)

-- A step of a test that is done leaves the rest of the test.
pub Passes-continue :
    {A : Type 0} {t : Time} {a : A} (o : Outcome A) (rest : A → Async (Unit {0}))
    → o ≡ done t a
    → Passes (rest a t)
    → Passes (continue o rest)
Passes-continue o rest e (t, passes) = (t, rw e passes)

pub ltb_lt : (a b : ℕ) → a < b → ltb a b ≡ true
ltb_lt a b h = ground arith

pub ltb_ge : (a b : ℕ) → b ≤ a → ltb a b ≡ false
ltb_ge a b h = ground arith

pub leb_le : (a b : ℕ) → a ≤ b → leb a b ≡ true
leb_le a b h = ground arith

-- The proofs of the members of a list, one after another.
infixr 5 ◌&◌
abbrev pub ◌&◌ : {P Q : Type 0} → P → Q → P × Q
p & q = (p, q)

-- The registry of a test that makes the first one, and its empty vector.
abbrev pub empty : Store
empty = [] ∷ []

abbrev pub made : HealthRegistry
made = record { checks = 0; default_timeout = from_secs 5 }

-- A check that sleeps for ten seconds, in a registry with a deadline of 100 milliseconds.
abbrev pub hangs_in : {lag : Duration} → Sleep lag → Option Text → RegisteredCheck
hangs_in timer group = record {
  name = codes "hangs";
  group = group;
  check_fn = slow timer (from_secs 10);
}

module _ (rt : Runtime) (timer : Sleep rt.lag) (now : Time) where
  pub slow-done :
      (d : Duration)
      → (t : Time) × (now + d ≤ t)
        × (t ≤ now + d + rt.lag)
        × (slow timer d now ≡ done t (ok healthy))
  slow-done d = let (t, from, to, e) = timer.sleep_done d now in (t, from, to, rw e refl)

  pub run_one-hangs :
      (group : Option Text)
      → (t : Time) × (now + from_millis 100 ≤ t)
        × (t ≤ now + from_millis 100 + rt.lag)
        × (run_one rt (from_millis 100) (hangs_in timer group) now
            ≡ done t
                (concluded (hangs_in timer group) now t (err (check_timed_out (from_millis 100)))))
  run_one-hangs group =
      let (t, from, to, e) = slow-done (from_secs 10) in
      run_one-Late rt (hangs_in timer group) now (from_millis 100) (omega arith)
        (rw e (omega arith))
