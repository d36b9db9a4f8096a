-- ===== src/Service/Earlier.antt =====
-- examples/k8s_service.rs, `shutdown_signal`: the earlier of two branches of `select!`.
use native.Mathlib.Decide.{dec_le}
use native.Mathlib.Nat.{min-le_left, min-le_right, min-eq_left, min-eq_right}
use healthkit.Base.{◌≤◌, ◌≡◌, refl, ◌↔◌, ◌⊎◌, inl, inr, true, min, arith}
use healthkit.Async.{Time, Outcome, done, panicked, hangs}
use healthkit.Service.Setup.{AtomicBool, store_true}
use healthkit.Service.Shutdown.{raised_by}

-- What has no panic.
abbrev pub Quiet {ℓ} : {A : Type ℓ} → Outcome A → Type 0
Quiet (done t a) = Unit
Quiet (panicked t) = ⊥
Quiet hangs = Unit

-- The completion of the earlier of two branches.
abbrev pub earlier : Outcome (Unit {0}) → Outcome (Unit {0}) → Outcome (Unit {0})
earlier (done t x) (done u y) = done (min t u) tt
earlier (done t x) other = done t tt
earlier first (done u y) = done u tt
earlier first other = hangs

-- One of the two is over at an instant up to the given one.
abbrev pub OverBy : Time → Outcome (Unit {0}) → Outcome (Unit {0}) → Type 0
OverBy now o o' = (t : Time) × (t ≤ now) × ((o ≡ done t tt) ⊎ (o' ≡ done t tt))

store_iff :
    (t now : Time) (draining : AtomicBool)
    → (store_true t draining now ≡ true) ↔ ((draining now ≡ true) ⊎ (t ≤ now))
store_iff t now draining = (λ e. ground arith, λ e. ground arith)

-- The earlier of two instants is there in time exactly if one of them is.
OverBy-both : (now t u : Time) → (min t u ≤ now) ↔ OverBy now (done t tt) (done u tt)
OverBy-both now t u = (
  λ h. elim (dec_le t u) [
    | yes le ↦ (t, grind (arith, min-eq_left), inl refl)
    | no gt ↦ (u, grind (arith, min-eq_right), inr refl)
  ],
  λ (v, le, over). elim over [
    | inl e ↦ ground (arith, min-le_left t u)
    | inr e ↦ ground (arith, min-le_right t u)
  ],
)

OverBy-left : (now t : Time) → (t ≤ now) ↔ OverBy now (done t tt) hangs
OverBy-left now t =
    (λ h. (t, h, inl refl), λ (v, le, over). elim over [ inl e ↦ ground arith | inr e ↦ cc ])

OverBy-right : (now u : Time) → (u ≤ now) ↔ OverBy now hangs (done u tt)
OverBy-right now u =
    (λ h. (u, h, inr refl), λ (v, le, over). elim over [ inl e ↦ cc | inr e ↦ ground arith ])

not-OverBy : (now : Time) → ¬ OverBy now hangs hangs
not-OverBy now (v, le, over) = elim over [ inl e ↦ cc | inr e ↦ cc ]

pub or_iff : {P Q R S : Type 0} → P ↔ (Q ⊎ R) → R ↔ S → P ↔ (Q ⊎ S)
or_iff (to, from) (there, back) = (
  λ p. elim (to p) [ inl q ↦ inl q | inr r ↦ inr (there r) ],
  λ x. elim x [ inl q ↦ from (inl q) | inr s ↦ from (inr (back s)) ],
)

pub raised_iff :
    (draining : AtomicBool) (now : Time) (o o' : Outcome (Unit {0}))
    → Quiet o
    → Quiet o'
    → (raised_by (earlier o o') draining now ≡ true) ↔ ((draining now ≡ true) ⊎ OverBy now o o')
raised_iff draining now (done t x) (done u y) q q' =
    or_iff (store_iff (min t u) now draining) (OverBy-both now t u)
raised_iff draining now (done t x) hangs q q' =
    or_iff (store_iff t now draining) (OverBy-left now t)
raised_iff draining now hangs (done u y) q q' =
    or_iff (store_iff u now draining) (OverBy-right now u)
raised_iff draining now hangs hangs q q' =
    (λ e. inl e, λ h. elim h [ inl e ↦ e | inr over ↦ absurd (not-OverBy now over) ])
raised_iff draining now (panicked t) o' q q' = absurd q
raised_iff draining now o (panicked t) q q' = absurd q'

-- An instant of these, and no later than any other of them.
abbrev pub Earliest : (Time → Type 0) → Time → Type 0
Earliest P t = P t × ((u : Time) → P u → t ≤ u)

abbrev pub Either : Outcome (Unit {0}) → Outcome (Unit {0}) → Time → Type 0
Either o o' t = (o ≡ done t tt) ⊎ (o' ≡ done t tt)

min_cases : (u w : Time) → ((min u w ≡ u) × (u ≤ w)) ⊎ ((min u w ≡ w) × (w ≤ u))
min_cases u w = elim (dec_le u w) [
  | yes le ↦ inl (min-eq_left le, le)
  | no gt ↦ inr (min-eq_right (omega arith), omega arith)
]

pub earlier_iff :
    (o o' : Outcome (Unit {0})) (t : Time)
    → Quiet o
    → Quiet o'
    → (earlier o o' ≡ done t tt) ↔ Earliest (Either o o') t
earlier_iff (done u x) (done w y) t q q' = elim (min_cases u w) [
  | inl (e, le) ↦ rw e (
    λ same. (inl same, λ v over. elim over [ inl f ↦ ground arith | inr f ↦ ground arith ]),
    λ (over, first). elim over [
      | inl f ↦ f
      | inr f ↦ let early = first u (inl refl) in ground arith
    ],
  )
  | inr (e, le) ↦ rw e (
    λ same. (inr same, λ v over. elim over [ inl f ↦ ground arith | inr f ↦ ground arith ]),
    λ (over, first). elim over [
      | inl f ↦ let early = first w (inr refl) in ground arith
      | inr f ↦ f
    ],
  )
]
earlier_iff (done u x) hangs t q q' = (
  λ same. (inl same, λ v over. elim over [ inl f ↦ ground arith | inr f ↦ cc ]),
  λ (over, first). elim over [ inl f ↦ f | inr f ↦ cc ],
)
earlier_iff hangs (done w y) t q q' = (
  λ same. (inr same, λ v over. elim over [ inl f ↦ cc | inr f ↦ ground arith ]),
  λ (over, first). elim over [ inl f ↦ cc | inr f ↦ f ],
)
earlier_iff hangs hangs t q q' =
    (λ e. absurd (cc), λ (over, first). elim over [ inl e ↦ cc | inr e ↦ cc ])
earlier_iff (panicked u) o' t q q' = absurd q
earlier_iff o (panicked u) t q q' = absurd q'

-- Where one branch is over, the earlier of them is, by then.
pub earlier-exists :
    (o o' : Outcome (Unit {0})) (u : Time)
    → Quiet o
    → Quiet o'
    → Either o o' u
    → (t : Time) × (t ≤ u) × (earlier o o' ≡ done t tt)
earlier-exists (done v x) (done w y) u q q' over = (
  min v w,
  elim over [ inl e ↦ ground (arith, min-le_left v w) | inr e ↦ ground (arith, min-le_right v w) ],
  refl,
)
earlier-exists (done v x) hangs u q q' over =
    (v, elim over [ inl e ↦ ground arith | inr e ↦ cc ], refl)
earlier-exists hangs (done w y) u q q' over =
    (w, elim over [ inl e ↦ cc | inr e ↦ ground arith ], refl)
earlier-exists hangs hangs u q q' over = absurd (elim over [ inl e ↦ cc | inr e ↦ cc ])
earlier-exists (panicked v) o' u q q' over = absurd q
earlier-exists o (panicked v) u q q' over = absurd q'

-- Without a panic, the wait ends or goes on.
pub earlier_cases :
    (o o' : Outcome (Unit {0}))
    → Quiet o
    → Quiet o'
    → ((t : Time) × (earlier o o' ≡ done t tt)) ⊎ (earlier o o' ≡ hangs)
earlier_cases (done v x) (done w y) q q' = inl (min v w, refl)
earlier_cases (done v x) hangs q q' = inl (v, refl)
earlier_cases hangs (done w y) q q' = inl (w, refl)
earlier_cases hangs hangs q q' = inr refl
earlier_cases (panicked v) o' q q' = absurd q
earlier_cases o (panicked v) q q' = absurd q'
