-- ===== src/Async/Ideal.antt =====
-- A runtime that meets what is assumed of one: a timer that fires at its deadline, a join that ends
-- with the last future, and a blocking pool that takes tasks at the instants that `accepts`.
use healthkit.Base.{
  ◌+◌, ◌≤◌, ◌<◌, ◌≡◌, refl, Bool, ◌⊎◌, inl, inr, true, false, List, [], ◌∷◌, codes, Text, Result,
  ok, err, max, ltb, if◌then◌else◌, arith,
}
use healthkit.Async.{Time, Outcome, done, panicked, hangs, Async}
use healthkit.Async.Runtime.{
  Elapsed, elapsed_error, Late, latest, values, Completes, AnyPanics, AnyHangs, Runtime,
}
use healthkit.Duration.{Duration}

module _ {A : Type 0} where
  abbrev cut : Time → Outcome A → Outcome (Result A Elapsed)
  cut limit (done t a) = if ltb t limit then done t (ok a) else done limit (err elapsed_error)
  cut limit (panicked t) = if ltb t limit then panicked t else done limit (err elapsed_error)
  cut limit hangs = done limit (err elapsed_error)

  abbrev pub ideal_timeout : Duration → Async A → Async (Result A Elapsed)
  ideal_timeout d f now = cut (now + d) (f now)

  pub ideal_timeout-done :
      (d : Duration) (f : Async A) (now t : Time) (a : A)
      → f now ≡ done t a
      → t < now + d
      → ideal_timeout d f now ≡ done t (ok a)
  ideal_timeout-done d f now t a e h = rw e (ground arith)

  pub ideal_timeout-panicked :
      (d : Duration) (f : Async A) (now t : Time)
      → f now ≡ panicked t
      → t < now + d
      → ideal_timeout d f now ≡ panicked t
  ideal_timeout-panicked d f now t e h = rw e (ground arith)

  cut-Late :
      (limit : Time) (o : Outcome A) → Late limit o → cut limit o ≡ done limit (err elapsed_error)
  cut-Late limit (done t a) h = ground arith
  cut-Late limit (panicked t) h = ground arith
  cut-Late limit hangs h = refl

  pub ideal_timeout-elapsed :
      (d : Duration) (f : Async A) (now : Time)
      → Late (now + d) (f now)
      → (t : Time) × (now + d ≤ t)
        × (t ≤ now + d + 0)
        × (ideal_timeout d f now ≡ done t (err elapsed_error))
  ideal_timeout-elapsed d f now h =
      (now + d, omega arith, omega arith, cut-Late (now + d) (f now) h)

  -- A panic of one future unwinds the join, also beside one that hangs.
  abbrev join : Outcome A → Outcome (List A) → Outcome (List A)
  join (done t a) (done u bs) = done (max t u) (a ∷ bs)
  join (done t a) (panicked u) = panicked u
  join (done t a) hangs = hangs
  join (panicked t) o = panicked t
  join hangs (done u bs) = hangs
  join hangs (panicked u) = panicked u
  join hangs hangs = hangs

  abbrev pub ideal_join_all : List (Async A) → Async (List A)
  ideal_join_all [] now = done now []
  ideal_join_all (f ∷ fs) now = join (f now) (ideal_join_all fs now)

  pub ideal_join_all-done :
      (fs : List (Async A)) (now : Time) (rs : List (Time × A))
      → Completes fs now rs
      → ideal_join_all fs now ≡ done (latest now rs) (values rs)
  ideal_join_all-done [] now [] h = refl
  ideal_join_all-done [] now (r ∷ rs) h = absurd h
  ideal_join_all-done (f ∷ fs) now [] h = absurd h
  ideal_join_all-done (f ∷ fs) now ((t, a) ∷ rs) h = rw (h.0, ideal_join_all-done fs now rs h.1)

  join_panicked :
      (o : Outcome A) (os : Outcome (List A)) (u : Time)
      → os ≡ panicked u
      → (t : Time) × (join o os ≡ panicked t)
  join_panicked (done t a) os u e = (u, rw e)
  join_panicked (panicked t) os u e = (t, refl)
  join_panicked hangs os u e = (u, rw e)

  pub ideal_join_all-panicked :
      (fs : List (Async A)) (now : Time)
      → AnyPanics fs now
      → (t : Time) × (ideal_join_all fs now ≡ panicked t)
  ideal_join_all-panicked [] now h = absurd h
  ideal_join_all-panicked (f ∷ fs) now (inl (t, e)) = (t, rw e)
  ideal_join_all-panicked (f ∷ fs) now (inr h) =
      let (u, e) = ideal_join_all-panicked fs now h in join_panicked (f now) _ u e

  join_hangs :
      (o : Outcome A) (os : Outcome (List A))
      → (o ≡ hangs) ⊎ (os ≡ hangs)
      → ((t : Time) → ¬ (o ≡ panicked t))
      → ((t : Time) → ¬ (os ≡ panicked t))
      → join o os ≡ hangs
  join_hangs (done t a) (done u bs) h n m = ground arith
  join_hangs (done t a) (panicked u) h n m = absurd (m u refl)
  join_hangs (done t a) hangs h n m = refl
  join_hangs (panicked t) os h n m = absurd (n t refl)
  join_hangs hangs (done u bs) h n m = refl
  join_hangs hangs (panicked u) h n m = absurd (m u refl)
  join_hangs hangs hangs h n m = refl

  panics_of_join :
      (o : Outcome A) (os : Outcome (List A)) (t : Time)
      → join o os ≡ panicked t
      → ((u : Time) × (o ≡ panicked u)) ⊎ ((u : Time) × (os ≡ panicked u))
  panics_of_join (done t a) (done u bs) v e = cc
  panics_of_join (done t a) (panicked u) v e = inr (u, refl)
  panics_of_join (done t a) hangs v e = cc
  panics_of_join (panicked t) os v e = inl (t, refl)
  panics_of_join hangs (done u bs) v e = cc
  panics_of_join hangs (panicked u) v e = inr (u, refl)
  panics_of_join hangs hangs v e = cc

  AnyPanics-of_join :
      (fs : List (Async A)) (now t : Time) → ideal_join_all fs now ≡ panicked t → AnyPanics fs now
  AnyPanics-of_join [] now t e = cc
  AnyPanics-of_join (f ∷ fs) now t e = elim (panics_of_join (f now) _ t e) [
    | inl p ↦ inl p
    | inr (u, e') ↦ inr (AnyPanics-of_join fs now u e')
  ]

  pub ideal_join_all-hangs :
      (fs : List (Async A)) (now : Time)
      → AnyHangs fs now
      → ¬ AnyPanics fs now
      → ideal_join_all fs now ≡ hangs
  ideal_join_all-hangs [] now h n = absurd h
  ideal_join_all-hangs (f ∷ fs) now (inl e) n =
      join_hangs (f now) (ideal_join_all fs now) (inl e) (λ t e'. n (inl (t, e')))
        (λ t e'. n (inr (AnyPanics-of_join fs now t e')))
  ideal_join_all-hangs (f ∷ fs) now (inr k) n =
      join_hangs (f now) (ideal_join_all fs now)
        (inr (ideal_join_all-hangs fs now k (λ p. n (inr p)))) (λ t e'. n (inl (t, e')))
        (λ t e'. n (inr (AnyPanics-of_join fs now t e')))

  abbrev handle : Outcome A → Outcome (Result A Text)
  handle (done t a) = done t (ok a)
  handle (panicked t) = done t (err (codes "task panicked"))
  handle hangs = hangs

  abbrev pub ideal_spawn_blocking : (Time → Bool) → Async A → Async (Result A Text)
  ideal_spawn_blocking accepts f now =
      if accepts now then handle (f now) else done now (err (codes "task was cancelled"))

  pub ideal_spawn_blocking-panicked :
      (accepts : Time → Bool) (f : Async A) (now t : Time)
      → accepts now ≡ true
      → f now ≡ panicked t
      → (e : Text) × (ideal_spawn_blocking accepts f now ≡ done t (err e))
  ideal_spawn_blocking-panicked accepts f now t h e = (codes "task panicked", rw (h, e))

  pub ideal_spawn_blocking-refused :
      (accepts : Time → Bool) (f : Async A) (now : Time)
      → accepts now ≡ false
      → (t : Time) × (e : Text) × (ideal_spawn_blocking accepts f now ≡ done t (err e))
  ideal_spawn_blocking-refused accepts f now h = (now, codes "task was cancelled", rw h)

  pub ideal_spawn_blocking-done :
      (accepts : Time → Bool) (f : Async A) (now t : Time) (a : A)
      → accepts now ≡ true
      → f now ≡ done t a
      → ideal_spawn_blocking accepts f now ≡ done t (ok a)
  ideal_spawn_blocking-done accepts f now t a h e = rw (h, e)

  pub ideal_spawn_blocking-hangs :
      (accepts : Time → Bool) (f : Async A) (now : Time)
      → accepts now ≡ true
      → f now ≡ hangs
      → ideal_spawn_blocking accepts f now ≡ hangs
  ideal_spawn_blocking-hangs accepts f now h e = rw (h, e)

abbrev pub ideal : (Time → Bool) → Runtime
ideal accepts = record {
  lag = 0;
  timeout = λ {A}. ideal_timeout;
  timeout_done = λ {A}. ideal_timeout-done;
  timeout_panicked = λ {A}. ideal_timeout-panicked;
  timeout_elapsed = λ {A}. ideal_timeout-elapsed;
  join_all = λ {A}. ideal_join_all;
  join_all_done = λ {A}. ideal_join_all-done;
  join_all_panicked = λ {A}. ideal_join_all-panicked;
  join_all_hangs = λ {A}. ideal_join_all-hangs;
  JoinError = Text;
  join_error_text = λ e. e;
  accepts = accepts;
  spawn_blocking = λ {A}. ideal_spawn_blocking accepts;
  spawn_blocking_done = λ {A}. ideal_spawn_blocking-done accepts;
  spawn_blocking_panicked = λ {A}. ideal_spawn_blocking-panicked accepts;
  spawn_blocking_hangs = λ {A}. ideal_spawn_blocking-hangs accepts;
  spawn_blocking_refused = λ {A}. ideal_spawn_blocking-refused accepts;
}
