-- ===== src/Registry/Groups.antt =====
-- src/registry.rs, `check_group`: which checks belong to a group, and that no other check matters.
use mathlib.Core.List.{Mem, mem-filter}
use mathlib.Core.Option.{some-injective}
use healthkit.Base.{
  ◌≡◌, refl, ap, ◌↔◌, ◌≢◌, inl, inr, Text, List, [], ◌∷◌, ◌++◌, map, Option, none, some, Result,
  true, Bool-cases, dec_true, ◌==◌, arith,
}
use healthkit.Async.{Async}
use healthkit.Async.Runtime.{Runtime}
use healthkit.Types.{HealthStatus}
use healthkit.Errors.{HealthCheckError}
use healthkit.Registry.Register.{
  RegisteredCheck, HealthRegistry, Store, checks_of, IsAllocated, add_check_inner,
}
use healthkit.Registry.Run.{run_one}
use healthkit.Registry.Sweep.{text_eq, in_group, members, check_group}
use healthkit.Registry.Sharing.{checks_of-add_check_inner}

text_eq_sound : (a b : Text) → text_eq a b ≡ true → a ≡ b
unfolding text_eq
text_eq_sound [] [] h = refl
text_eq_sound [] (y ∷ b) h = cc
text_eq_sound (x ∷ a) [] h = cc
text_eq_sound (x ∷ a) (y ∷ b) h = ground (arith, text_eq_sound a b)

text_eq_refl : (a : Text) → text_eq a a ≡ true
unfolding text_eq
text_eq_refl [] = refl
text_eq_refl (x ∷ a) = ground (arith, text_eq_refl a)

pub text_eq_iff : (a b : Text) → (text_eq a b ≡ true) ↔ (a ≡ b)
text_eq_iff a b = (text_eq_sound a b, λ e. rw e (text_eq_refl b))

pub in_group_iff : (g : Text) (o : Option Text) → (in_group g o ≡ true) ↔ (o ≡ some g)
unfolding in_group
in_group_iff g none = (λ e. cc, λ e. cc)
in_group_iff g (some a) =
    (λ e. ap some (text_eq_sound a g e), λ e. rw (some-injective a g e) (text_eq_refl g))

-- A check is run for a group exactly if it is registered and was added to that group.
pub mem-members :
    (g : Text) (c : RegisteredCheck) (cs : List RegisteredCheck)
    → Mem c (members g cs) ↔ (Mem c cs × (c.group ≡ some g))
unfolding members
mem-members g c cs =
    let (to, from) = in_group_iff g c.group in
    let (split, join) =
      mem-filter (λ (x : RegisteredCheck). dec_true (in_group g x.group)) {l = cs} {x = c} in
    (λ m. let (m', e) = split m in (m', to e), λ (m, e). join (m, from e))

members-append_other :
    (g : Text) (cs : List RegisteredCheck) (c : RegisteredCheck)
    → c.group ≢ some g
    → members g (cs ++ c ∷ []) ≡ members g cs
unfolding members
members-append_other g [] c h = elim (Bool-cases (in_group g c.group)) [
  | inl e ↦ absurd (h ((in_group_iff g c.group).0 e))
  | inr e ↦ rw e
]
members-append_other g (x ∷ cs) c h = ground (arith, members-append_other g cs c h)

-- Registering a check without a group, or in another one, changes nothing for a group's sweep.
pub check_group-add_other :
    (rt : Runtime) (s : Store) (r : HealthRegistry) (g : Text) (group : Option Text) (name : Text)
    (check : Async (Result HealthStatus HealthCheckError)) (q : HealthRegistry)
    → IsAllocated s r
    → group ≢ some g
    → check_group rt (add_check_inner r group name check s) q g ≡ check_group rt s q g
unfolding check_group
check_group-add_other rt s r g group name check q h other =
    ap (λ (cs : List RegisteredCheck). rt.join_all (map (run_one rt q.default_timeout) cs))
      (rw (checks_of-add_check_inner r group name check s q h)
        (elim (Bool-cases (q.checks == r.checks)) [
          | inl same ↦ rw same (members-append_other g (checks_of s q) _ other)
          | inr different ↦ rw different
        ]))
