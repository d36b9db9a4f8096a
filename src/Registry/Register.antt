-- ===== src/Registry/Register.antt =====
-- src/registry.rs: registrations. The vector of checks stands behind an `Arc`, which a clone of the
-- registry shares, so a registry is a handle into a store of vectors.
use healthkit.Base.{
  ℕ, ◌<◌, Text, List, [], ◌∷◌, ◌++◌, Option, none, some, Result, ok, err, length, get_or, set,
}
use healthkit.Async.{Async, pure, ◌>>=◌}
use healthkit.Async.Runtime.{Runtime}
use healthkit.Duration.{Duration, from_secs}
use healthkit.Types.{HealthStatus}
use healthkit.Errors.{HealthCheckError, shutting_down}

-- A registered check: its name, its group if any, and the future that a call of it returns.
pub record RegisteredCheck : Type 0 where
  pub name : Text
  pub group : Option Text
  pub check_fn : Async (Result HealthStatus HealthCheckError)

-- The vectors behind the locks, by address.
abbrev pub Store : Type 0
Store = List (List RegisteredCheck)

-- `checks` is the address of the shared vector; the timeout belongs to the handle.
pub record HealthRegistry : Type 0 where
  pub checks : ℕ
  pub default_timeout : Duration

-- What a read of the lock finds.
abbrev pub checks_of : Store → HealthRegistry → List RegisteredCheck
checks_of s r = get_or s r.checks []

-- The handle points into the store.
abbrev pub IsAllocated : Store → HealthRegistry → Type 0
IsAllocated s r = r.checks < length s

unfoldable pub new : Store → HealthRegistry × Store
new s = (record { checks = length s; default_timeout = from_secs 5 }, s ++ [] ∷ [])

-- `impl Default for HealthRegistry`
unfoldable pub default : Store → HealthRegistry × Store
unfolding new
default s = new s

unfoldable pub with_default_timeout : HealthRegistry → Duration → HealthRegistry
with_default_timeout r timeout = record r { default_timeout = timeout }

unfoldable pub default_timeout : HealthRegistry → Duration
default_timeout r = r.default_timeout

-- `checks.write().push(check)`
abbrev pub push : HealthRegistry → RegisteredCheck → Store → Store
push r check s = set s r.checks (checks_of s r ++ check ∷ [])

unfoldable pub add_check_inner :
    HealthRegistry
    → Option Text
    → Text
    → Async (Result HealthStatus HealthCheckError)
    → Store
    → Store
add_check_inner r group name check s =
    push r (record { name = name; group = group; check_fn = check }) s

unfoldable pub add_check :
    HealthRegistry → Text → Async (Result HealthStatus HealthCheckError) → Store → Store
unfolding add_check_inner
add_check r name check s = add_check_inner r none name check s

unfoldable pub add_check_to_group :
    HealthRegistry → Text → Text → Async (Result HealthStatus HealthCheckError) → Store → Store
unfolding add_check_inner
add_check_to_group r group name check s = add_check_inner r (some group) name check s

-- What is left when the handle of the task is awaited: the task wrote, or it did not run.
written : {E : Type 0} → Store → Result Store E → Store × Result (Unit {0}) HealthCheckError
written s (ok s') = (s', ok tt)
written s (err e) = (s, err shutting_down)

module _ (rt : Runtime) where
  unfoldable pub add_check_inner_async :
      HealthRegistry
      → Option Text
      → Text
      → Async (Result HealthStatus HealthCheckError)
      → Store
      → Async (Store × Result (Unit {0}) HealthCheckError)
  unfolding written
  add_check_inner_async r group name check s = do
    result ←
        rt.spawn_blocking
          (pure (push r (record { name = name; group = group; check_fn = check }) s))
    pure (written s result)

  unfoldable pub add_check_async :
      HealthRegistry
      → Text
      → Async (Result HealthStatus HealthCheckError)
      → Store
      → Async (Store × Result (Unit {0}) HealthCheckError)
  unfolding add_check_inner_async
  add_check_async r name check s = add_check_inner_async r none name check s

  unfoldable pub add_check_to_group_async :
      HealthRegistry
      → Text
      → Text
      → Async (Result HealthStatus HealthCheckError)
      → Store
      → Async (Store × Result (Unit {0}) HealthCheckError)
  unfolding add_check_inner_async
  add_check_to_group_async r group name check s = add_check_inner_async r (some group) name check s
