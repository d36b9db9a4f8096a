-- ===== src/Registry/Sharing.antt =====
-- src/registry.rs, `new`, `add_check` and the like: what a registration changes, for every handle
-- that shares the vector and for every other one.
use healthkit.Base.{
  ℕ, ◌<◌, ◌≡◌, refl, sym, inl, inr, ◌≢◌, Text, [], ◌∷◌, ◌++◌, Option, Result, ok, err, length,
  get_or, size_laws, get_or-set_self, get_or-set_ne, get_or-append_end, get_or-append_lt, ◌==◌,
  ==_iff, Bool-cases, false, if◌then◌else◌, arith, List,
}
use healthkit.Async.{Time, Async, pure, done}
use healthkit.Async.Runtime.{Runtime}
use healthkit.Duration.{Duration, from_secs}
use healthkit.Types.{HealthStatus}
use healthkit.Errors.{HealthCheckError, shutting_down}
use healthkit.Registry.Register.{
  RegisteredCheck, HealthRegistry, Store, checks_of, IsAllocated, new, add_check_inner,
  add_check_inner_async,
}

-- A new registry has its own empty vector and the timeout of five seconds, and every registry that
-- was there before keeps its checks.
pub new-checks_of :
    (s : Store) (q : HealthRegistry)
    → IsAllocated s q
    → (checks_of (new s).1 (new s).0 ≡ [])
      × IsAllocated (new s).1 (new s).0
      × ((new s).0.default_timeout ≡ from_secs 5)
      × (checks_of (new s).1 q ≡ checks_of s q)
unfolding new
new-checks_of s q h =
    (get_or-append_end s [] [], grind size_laws, refl, get_or-append_lt s [] [] q.checks h)

module _ (r : HealthRegistry) (group : Option Text) (name : Text)
    (check : Async (Result HealthStatus HealthCheckError)) (s : Store) where
  at_same :
      (a : ℕ)
      → a ≡ r.checks
      → r.checks < length s
      → get_or (add_check_inner r group name check s) a []
        ≡ get_or s a [] ++ record { name = name; group = group; check_fn = check } ∷ []
  unfolding add_check_inner
  at_same a e h = rw e (get_or-set_self s r.checks _ [] h)

  differs : (a : ℕ) → a ≡ r.checks → (a == r.checks) ≢ false
  differs a e n = ground arith

  -- Through every handle that shares the vector of `r`, whatever its timeout, the new check is the
  -- last one after the old ones; all other registries keep their checks.
  pub checks_of-add_check_inner :
      (q : HealthRegistry)
      → IsAllocated s r
      → checks_of (add_check_inner r group name check s) q ≡ (
          if q.checks == r.checks
          then checks_of s q ++ record { name = name; group = group; check_fn = check } ∷ []
          else checks_of s q)
  unfolding add_check_inner
  checks_of-add_check_inner q h = elim (Bool-cases (q.checks == r.checks)) [
    | inl same ↦ rw same (at_same q.checks ((==_iff _ _).0 same) h)
    | inr other ↦
        rw other (get_or-set_ne s r.checks q.checks _ [] (λ e. differs q.checks (sym e) other))
  ]

  -- Registered from inside a runtime, the check is added exactly if the blocking pool takes the
  -- task; if it does not, the caller gets `shutting_down` and no vector has changed.
  pub add_check_inner_async_lem :
      (rt : Runtime) (now : Time)
      → (t : Time) × (add_check_inner_async rt r group name check s now
          ≡ done t (
              if rt.accepts now
              then (add_check_inner r group name check s, ok tt)
              else (s, err shutting_down)))
  unfolding add_check_inner_async add_check_inner
  add_check_inner_async_lem rt now =
      let pushed = add_check_inner r group name check s in
      elim (Bool-cases (rt.accepts now)) [
        | inl up ↦ (now, rw (up, rt.spawn_blocking_done (pure pushed) now now pushed up refl))
        | inr down ↦
            let (t, e, ran) = rt.spawn_blocking_refused (pure pushed) now down in
            (t, rw (down, ran))
      ]

-- What a store has behind a handle.
abbrev pub Has : HealthRegistry → List RegisteredCheck → Store → Type 0
Has r cs s = IsAllocated s r × (checks_of s r ≡ cs)

pub Has-new :
    (s : Store) (d : Duration) → Has (record (new s).0 { default_timeout = d }) [] (new s).1
unfolding new
Has-new s d = (grind size_laws, get_or-append_end s [] [])

pub Has-add_check_inner :
    (r : HealthRegistry) (group : Option Text) (name : Text)
    (check : Async (Result HealthStatus HealthCheckError)) (s : Store) (cs : List RegisteredCheck)
    → Has r cs s
    → Has r
        (cs ++ record { name = name; group = group; check_fn = check } ∷ [])
        (add_check_inner r group name check s)
unfolding add_check_inner
Has-add_check_inner r group name check s cs (h, e) =
    (grind size_laws, rw e (get_or-set_self s r.checks _ [] h))
