-- ===== src/Service/Draining.antt =====
-- examples/k8s_service.rs, `shutdown_signal`: when the pod is marked as draining.
use healthkit.Base.{◌≤◌, ◌≡◌, refl, ◌∙◌, ◌↔◌, ◌⊎◌, inl, inr, true, Result, ok, err, Option, arith}
use healthkit.Async.{Time, Outcome, done, panicked, hangs, Async, continue}
use healthkit.Service.Setup.{AtomicBool}
use healthkit.Service.Shutdown.{Signals, ctrl_c, received, terminate, first_signal, shutdown_signal}
use healthkit.Service.Earlier.{
  Quiet, earlier, OverBy, Either, Earliest, or_iff, raised_iff, earlier_iff, earlier-exists,
  earlier_cases,
}

module _ (signals : Signals) (began : Time) where
  -- A branch of the wait for a signal is over at an instant: SIGINT or SIGTERM has arrived, or the
  -- process cannot listen for one of them.
  abbrev pub Signalled : Time → Type 0
  Signalled t =
      ((r : Result (Unit {0}) signals.SignalError) × (signals.ctrl_c began ≡ done t r))
      ⊎ (((sig : signals.Terminate) × (signals.install began ≡ ok sig)
            × ((arrived : Option (Unit {0})) × (signals.recv sig began ≡ done t arrived)))
          ⊎ ((e : signals.SignalError) × (signals.install began ≡ err e) × (t ≡ began)))

  -- Neither branch of the wait unwinds.
  abbrev pub QuietSignals : Type 0
  QuietSignals =
      Quiet (signals.ctrl_c began)
      × ((sig : signals.Terminate)
          → signals.install began ≡ ok sig
          → Quiet (signals.recv sig began))

  select_earlier :
      (f g : Async (Unit {0})) (o o' : Outcome (Unit {0}))
      → f began ≡ o
      → g began ≡ o'
      → Quiet o
      → Quiet o'
      → signals.select f g began ≡ earlier o o'
  select_earlier f g (done t x) (done u y) e e' q q' = signals.select_done f g began t u e e'
  select_earlier f g (done t x) hangs e e' q q' = signals.select_left f g began t e e'
  select_earlier f g hangs (done u y) e e' q q' = signals.select_right f g began u e e'
  select_earlier f g hangs hangs e e' q q' = signals.select_hangs f g began e e'
  select_earlier f g (panicked t) o' e e' q q' = absurd q
  select_earlier f g o (panicked t) e e' q q' = absurd q'

  -- The value of a branch is dropped.
  dropped : {A : Type 0} → Outcome A → Outcome (Unit {0})
  dropped o = continue o (λ r now. done now tt)

  dropped-Quiet : {A : Type 0} (o : Outcome A) → Quiet o → Quiet (dropped o)
  unfolding dropped
  dropped-Quiet (done t a) q = tt
  dropped-Quiet (panicked t) q = q
  dropped-Quiet hangs q = tt

  dropped_iff :
      {A : Type 0} (o : Outcome A) (t : Time) → (dropped o ≡ done t tt) ↔ ((a : A) × (o ≡ done t a))
  unfolding dropped
  dropped_iff (done u a) t = (λ e. (a, cc), λ (b, e). cc)
  dropped_iff (panicked u) t = (λ e. absurd (cc), λ (b, e). cc)
  dropped_iff hangs t = (λ e. absurd (cc), λ (b, e). cc)

  received_iff :
      (t : Time) (r : Result signals.Terminate signals.SignalError)
      → (received signals r began ≡ done t tt) ↔ (
          ((sig : signals.Terminate) × (r ≡ ok sig)
            × ((arrived : Option (Unit {0})) × (signals.recv sig began ≡ done t arrived)))
          ⊎ ((e : signals.SignalError) × (r ≡ err e) × (t ≡ began)))
  unfolding received dropped
  received_iff t (ok sig) =
      let (to, from) = dropped_iff (signals.recv sig began) t in
      (
        λ e. inl (sig, refl, to e),
        λ h. elim h [
          | inl (other, same, (arrived, e)) ↦ from (arrived, cc)
          | inr (e, differs, now) ↦ absurd (cc)
        ],
      )
  received_iff t (err x) = (
    λ e. inr (x, refl, ground arith),
    λ h. elim h [ inl (sig, differs, (arrived, e)) ↦ absurd (cc) | inr (e, same, now) ↦ cc ],
  )

  received-Quiet :
      (r : Result signals.Terminate signals.SignalError)
      → ((sig : signals.Terminate) → r ≡ ok sig → Quiet (signals.recv sig began))
      → Quiet (received signals r began)
  unfolding received dropped
  received-Quiet (ok sig) quiet = dropped-Quiet (signals.recv sig began) (quiet sig refl)
  received-Quiet (err x) quiet = tt

  branch_iff : (t : Time) → Either (ctrl_c signals began) (terminate signals began) t ↔ Signalled t
  unfolding ctrl_c terminate dropped
  branch_iff t = (
    λ over. elim over [
      | inl e ↦ inl ((dropped_iff (signals.ctrl_c began) t).0 e)
      | inr e ↦ inr ((received_iff t (signals.install began)).0 e)
    ],
    λ over. elim over [
      | inl e ↦ inl ((dropped_iff (signals.ctrl_c began) t).1 e)
      | inr e ↦ inr ((received_iff t (signals.install began)).1 e)
    ],
  )

  over_iff :
      (now : Time)
      → OverBy now (ctrl_c signals began) (terminate signals began)
        ↔ ((t : Time) × (t ≤ now) × Signalled t)
  over_iff now = (
    λ (t, le, over). (t, le, (branch_iff t).0 over),
    λ (t, le, over). (t, le, (branch_iff t).1 over),
  )

  module _ (quiet : QuietSignals) where
    -- The wait ends with its first branch.
    pub first_signal-earlier :
        (first_signal signals began ≡ earlier (ctrl_c signals began) (terminate signals began))
        × Quiet (ctrl_c signals began)
        × Quiet (terminate signals began)
    unfolding first_signal ctrl_c terminate dropped
    first_signal-earlier =
        let quiet_int = dropped-Quiet (signals.ctrl_c began) quiet.0 in
        let quiet_term = received-Quiet (signals.install began) quiet.1 in
        (
          select_earlier (ctrl_c signals) (terminate signals) _ _ refl refl quiet_int quiet_term,
          quiet_int,
          quiet_term,
        )

    -- The pod is marked as draining exactly from the first instant at which SIGINT or SIGTERM has
    -- arrived, or at which the process cannot listen for one of them; if neither wait unwinds.
    pub shutdown_signal_iff :
        (draining : AtomicBool) (now : Time)
        → (shutdown_signal signals began draining now ≡ true)
          ↔ ((draining now ≡ true) ⊎ ((t : Time) × (t ≤ now) × Signalled t))
    unfolding shutdown_signal
    shutdown_signal_iff draining now =
        let (first, quiet_int, quiet_term) = first_signal-earlier in
        rw first (
          or_iff
            (raised_iff draining now (ctrl_c signals began) (terminate signals began) quiet_int
              quiet_term)
            (over_iff now))

    -- The wait is over at the first instant at which one of its branches is.
    pub first_signal_iff :
        (t : Time) → (first_signal signals began ≡ done t tt) ↔ Earliest Signalled t
    first_signal_iff t =
        let (first, quiet_int, quiet_term) = first_signal-earlier in
        let (to, from) =
          earlier_iff (ctrl_c signals began) (terminate signals began) t quiet_int quiet_term in
        rw first (
          λ e.
              let (over, least) = to e in
              ((branch_iff t).0 over, λ u h. least u ((branch_iff u).1 h)),
          λ (over, least). from ((branch_iff t).1 over, λ u h. least u ((branch_iff u).0 h)),
        )

    pub first_signal-exists : (u : Time) → Signalled u → (t : Time) × (t ≤ u) × Earliest Signalled t
    first_signal-exists u h =
        let (first, quiet_int, quiet_term) = first_signal-earlier in
        let (t, le, e) =
          earlier-exists (ctrl_c signals began) (terminate signals began) u quiet_int quiet_term
            ((branch_iff u).1 h) in
        (t, le, (first_signal_iff t).0 (first ∙ e))

    pub first_signal_cases :
        ((t : Time) × Earliest Signalled t) ⊎ (first_signal signals began ≡ hangs)
    first_signal_cases =
        let (first, quiet_int, quiet_term) = first_signal-earlier in
        elim (earlier_cases (ctrl_c signals began) (terminate signals began) quiet_int quiet_term) [
          | inl (t, e) ↦ inl (t, (first_signal_iff t).0 (first ∙ e))
          | inr e ↦ inr (first ∙ e)
        ]
