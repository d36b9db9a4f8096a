-- ===== src/Registry/Reports.antt =====
-- src/registry.rs, `run_one`: what a single check has to report, and that the code reports it.
use native.Mathlib.Decide.{dec_le, dec_lt}
use healthkit.Base.{
  ◌+◌, ◌-◌, ◌≤◌, ◌<◌, ◌≡◌, refl, ◌⊎◌, inl, inr, codes, ◌++◌, none, some, Result, ok, err, true,
  false, ◌==◌, arith,
}
use healthkit.Async.{Time, Outcome, done, panicked, hangs}
use healthkit.Async.Runtime.{Runtime, Elapsed, Late, elapsed_error}
use healthkit.Duration.{Duration, debug}
use healthkit.Types.{HealthStatus, unhealthy, CheckResult}
use healthkit.Errors.{HealthCheckError, check_timed_out, error_text}
use healthkit.Registry.Register.{RegisteredCheck}
use healthkit.Registry.Run.{settle, fold_outcome, run_one}

-- The outcome of a check is there before its deadline, if it has one.
abbrev pub InTime : Duration → Time → Time → Type 0
InTime deadline now t = (deadline ≡ 0) ⊎ (t < now + deadline)

-- Under a deadline, it ends at the instant `limit` at the latest.
abbrev pub EndsBy : Time → Duration → Time → Type 0
EndsBy limit deadline t = (deadline ≡ 0) ⊎ (t ≤ limit)

-- A check of which a sweep learns something: it returns, or its deadline cuts it off.
abbrev pub Answers {ℓ} : {A : Type ℓ} → Duration → Time → Outcome A → Type 0
Answers deadline now (done t a) = Unit
Answers deadline now (panicked t) = (0 < deadline) × (now + deadline ≤ t)
Answers deadline now hangs = 0 < deadline

pub Answers-done {ℓ} :
    {A : Type ℓ} (d : Duration) (now t : Time) (o : Outcome A) (a : A)
    → o ≡ done t a
    → Answers d now o
Answers-done d now t o a e = rw e tt

-- The result that a check which is started at `now` must have: the status that it returned in time
-- and no message, or `unhealthy` with the text of its error, or `unhealthy` with the deadline.
pub data Reports (lag deadline : Duration) (c : RegisteredCheck) (now : Time) (r : CheckResult)
    : Type 0 where
  returned :
      (t : Time) (s : HealthStatus)
      → c.check_fn now ≡ done t (ok s)
      → InTime deadline now t
      → r ≡ record { name = c.name; status = s; message = none; duration = t - now }
      → Reports lag deadline c now r
  failed :
      (t : Time) (e : HealthCheckError)
      → c.check_fn now ≡ done t (err e)
      → InTime deadline now t
      → r ≡ record {
        name = c.name;
        status = unhealthy;
        message = some (error_text e);
        duration = t - now;
      }
      → Reports lag deadline c now r
  timed_out :
      (t : Time)
      → 0 < deadline
      → Late (now + deadline) (c.check_fn now)
      → now + deadline ≤ t
      → t ≤ now + deadline + lag
      → r ≡ record {
        name = c.name;
        status = unhealthy;
        message = some (codes "health check timed out after " ++ debug deadline);
        duration = t - now;
      }
      → Reports lag deadline c now r

-- The result that a check's own outcome leads to.
abbrev pub concluded :
    RegisteredCheck → Time → Time → Result HealthStatus HealthCheckError → CheckResult
concluded c now t o = record {
  name = c.name;
  status = (fold_outcome o).0;
  message = (fold_outcome o).1;
  duration = t - now;
}

module _ (rt : Runtime) (c : RegisteredCheck) (now : Time) where
  run_one_unlimited :
      (t : Time) (o : Result HealthStatus HealthCheckError)
      → c.check_fn now ≡ done t o
      → run_one rt 0 c now ≡ done t (concluded c now t o)
  unfolding run_one
  run_one_unlimited t o e = rw e

  pub run_one_limited :
      (d : Duration) (t : Time) (x : Result (Result HealthStatus HealthCheckError) Elapsed)
      → 0 < d
      → rt.timeout d c.check_fn now ≡ done t x
      → run_one rt d c now ≡ done t (concluded c now t (settle d x))
  unfolding run_one
  run_one_limited d t x h e = let set : (d == 0) ≡ false = ground arith in rw (set, e)

  -- A check that is done before its deadline leads to the result of its own outcome.
  pub run_one-InTime :
      (d : Duration) (t : Time) (o : Result HealthStatus HealthCheckError)
      → c.check_fn now ≡ done t o
      → InTime d now t
      → run_one rt d c now ≡ done t (concluded c now t o)
  unfolding settle
  run_one-InTime d t o e (inl z) = rw z (run_one_unlimited t o e)
  run_one-InTime d t o e (inr soon) = elim (dec_le 1 d) [
    | no none_set ↦ let z : d ≡ 0 = omega arith in rw z (run_one_unlimited t o e)
    | yes pos ↦ run_one_limited d t (ok o) pos (rt.timeout_done d c.check_fn now t o e soon)
  ]

  -- Without a deadline, a check that hangs takes the run with it.
  -- A check that its deadline cuts off leads to the result of the deadline, in time.
  pub run_one-Late :
      (d : Duration)
      → 0 < d
      → Late (now + d) (c.check_fn now)
      → (t : Time) × (now + d ≤ t)
        × (t ≤ now + d + rt.lag)
        × (run_one rt d c now ≡ done t (concluded c now t (err (check_timed_out d))))
  unfolding settle
  run_one-Late d pos late =
      let (t, from, to, e) = rt.timeout_elapsed d c.check_fn now late in
      (t, from, to, run_one_limited d t (err elapsed_error) pos e)

  pub run_one_stuck : c.check_fn now ≡ hangs → run_one rt 0 c now ≡ hangs
  unfolding run_one
  run_one_stuck e = rw e

  concluded-Reports :
      (d : Duration) (t : Time) (o : Result HealthStatus HealthCheckError)
      → c.check_fn now ≡ done t o
      → InTime d now t
      → Reports rt.lag d c now (concluded c now t o)
  unfolding fold_outcome
  concluded-Reports d t (ok s) e h = returned t s e h refl
  concluded-Reports d t (err x) e h = failed t x e h refl

  module _ (d : Duration) where
    -- The run ends, with a result to report, and under a deadline at the timer's last moment at
    -- the latest.
    abbrev pub Finishes : Type 0
    Finishes =
        (t : Time) × (r : CheckResult) × (run_one rt d c now ≡ done t r)
        × Reports rt.lag d c now r
        × EndsBy (now + d + rt.lag) d t

    finishes_unlimited :
        (t : Time) (o : Result HealthStatus HealthCheckError)
        → c.check_fn now ≡ done t o
        → d ≡ 0
        → Finishes
    finishes_unlimited t o e z = (
      t,
      concluded c now t o,
      rw z (run_one_unlimited t o e),
      concluded-Reports d t o e (inl z),
      inl z,
    )

    finishes_late : 0 < d → Late (now + d) (c.check_fn now) → Finishes
    unfolding fold_outcome error_text settle
    finishes_late pos late =
        let (t, from, to, e) = rt.timeout_elapsed d c.check_fn now late in
        (
          t,
          concluded c now t (settle d (err elapsed_error)),
          run_one_limited d t (err elapsed_error) pos e,
          timed_out t pos late from to refl,
          inr to,
        )

    finishes_in_time :
        (t : Time) (o : Result HealthStatus HealthCheckError)
        → c.check_fn now ≡ done t o
        → 0 < d
        → t < now + d
        → Finishes
    unfolding settle
    finishes_in_time t o e pos h = (
      t,
      concluded c now t o,
      run_one_limited d t (ok o) pos (rt.timeout_done d c.check_fn now t o e h),
      concluded-Reports d t o e (inr h),
      inr (omega arith),
    )

    finishes_at :
        (o : Outcome (Result HealthStatus HealthCheckError))
        → c.check_fn now ≡ o
        → Answers d now o
        → Finishes
    finishes_at (done t o) e h = elim (dec_le 1 d) [
      | no none_set ↦ finishes_unlimited t o e (omega arith)
      | yes pos ↦ elim (dec_lt t (now + d)) [
        | yes early ↦ finishes_in_time t o e pos early
        | no late ↦ finishes_late pos (rw e (omega arith))
      ]
    ]
    finishes_at (panicked t) e h = finishes_late h.0 (rw e h.1)
    finishes_at hangs e h = finishes_late h (rw e tt)

    -- A check that answers has a run that ends, with a result that it must have.
    pub run_one-Reports : Answers d now (c.check_fn now) → Finishes
    run_one-Reports = finishes_at (c.check_fn now) refl

    -- A check that unwinds before its deadline takes the run with it.
    pub run_one-panicked :
        (t : Time) → c.check_fn now ≡ panicked t → InTime d now t → run_one rt d c now ≡ panicked t
    unfolding run_one
    run_one-panicked t e h = elim (dec_le 1 d) [
      | no none_set ↦ let z : (d == 0) ≡ true = ground arith in rw (z, e)
      | yes pos ↦
          let set : (d == 0) ≡ false = ground arith in
          let soon : t < now + d = omega arith in
          rw (set, rt.timeout_panicked d c.check_fn now t e soon)
    ]
