-- ===== src/Registry/Histories.antt =====
-- src/registry.rs: sequences of registrations, by any tasks through any handles, in the order in
-- which they got the locks.
use healthkit.Base.{
  ℕ, ◌≡◌, sym, ◌∙◌, Text, List, [], ◌∷◌, ◌++◌, Option, Result, ◌==◌, Bool-cases, if◌then◌else◌, inl,
  inr, append_assoc, append-nil, size_laws, get_or-append_lt,
}
use healthkit.Async.{Async}
use healthkit.Types.{HealthStatus}
use healthkit.Errors.{HealthCheckError}
use healthkit.Registry.Register.{
  RegisteredCheck, HealthRegistry, Store, checks_of, IsAllocated, new, add_check_inner,
}
use healthkit.Registry.Sharing.{checks_of-add_check_inner}

-- A new registry, or a registration through a handle.
pub data Event : Type 0 where
  create : Event
  register :
      HealthRegistry → Option Text → Text → Async (Result HealthStatus HealthCheckError) → Event

abbrev pub apply : Event → Store → Store
apply create s = (new s).1
apply (register r group name check) s = add_check_inner r group name check s

abbrev pub run : List Event → Store → Store
run [] s = s
run (e ∷ es) s = run es (apply e s)

-- The handle of a registration was made before it.
abbrev pub IsMade : Event → Store → Type 0
IsMade create s = Unit
IsMade (register r group name check) s = IsAllocated s r

abbrev pub AreMade : List Event → Store → Type 0
AreMade [] s = Unit
AreMade (e ∷ es) s = IsMade e s × AreMade es (apply e s)

-- What the events register in the vector at an address, in their order.
abbrev pub registered_at : ℕ → List Event → List RegisteredCheck
registered_at a [] = []
registered_at a (create ∷ es) = registered_at a es
registered_at a (register r group name check ∷ es) =
    let rest = registered_at a es in
    if a == r.checks then record { name = name; group = group; check_fn = check } ∷ rest else rest

pub IsAllocated-apply :
    (e : Event) (s : Store) (q : HealthRegistry) → IsAllocated s q → IsAllocated (apply e s) q
unfolding new add_check_inner
IsAllocated-apply create s q h = grind size_laws
IsAllocated-apply (register r group name check) s q h = grind size_laws

pub checks_of-apply :
    (e : Event) (s : Store) (q : HealthRegistry) (es : List Event)
    → IsAllocated s q
    → IsMade e s
    → checks_of (apply e s) q ++ registered_at q.checks es
      ≡ checks_of s q ++ registered_at q.checks (e ∷ es)
unfolding new
checks_of-apply create s q es h made = rw (get_or-append_lt s [] [] q.checks h)
checks_of-apply (register r group name check) s q es h made =
    rw (checks_of-add_check_inner r group name check s q made)
      (elim (Bool-cases (q.checks == r.checks)) [
        | inl same ↦ rw same (append_assoc (checks_of s q) _ (registered_at q.checks es))
        | inr other ↦ rw other
      ])

-- However registrations and new registries interleave, each handle finds the checks that it had
-- before them and then exactly those that were registered through it or a handle that shares its
-- vector, in the order of their registrations: none is lost, and none appears elsewhere.
pub checks_of-run :
    (es : List Event) (s : Store) (q : HealthRegistry)
    → IsAllocated s q
    → AreMade es s
    → checks_of (run es s) q ≡ checks_of s q ++ registered_at q.checks es
checks_of-run [] s q h made = sym (append-nil (checks_of s q))
checks_of-run (e ∷ es) s q h made =
    checks_of-run es (apply e s) q (IsAllocated-apply e s q h) made.1
    ∙ checks_of-apply e s q es h made.0
