-- ===== src/Async/Runtime.antt =====
-- What the crate takes from tokio and futures: `tokio::time::timeout`, `futures::future::join_all`
-- and `tokio::task::spawn_blocking`, with what their documentation promises.
use healthkit.Base.{
  ◌+◌, ◌≤◌, ◌<◌, ◌≡◌, ◌⊎◌, Bool, true, false, List, [], ◌∷◌, Text, Result, ok, err, max,
}
use healthkit.Async.{Time, Outcome, done, panicked, hangs, Async}
use healthkit.Duration.{Duration}

-- `tokio::time::error::Elapsed`
pub data Elapsed : Type 0 where
  elapsed_error : Elapsed

-- The outcome is not there before the instant `limit`.
abbrev pub Late {ℓ} : {A : Type ℓ} → Time → Outcome A → Type 0
Late limit (done t a) = limit ≤ t
Late limit (panicked t) = limit ≤ t
Late limit hangs = Unit

-- The latest of the instants, at least the first one.
abbrev pub latest {ℓ} : {A : Type ℓ} → Time → List (Time × A) → Time
latest now [] = now
latest now ((t, a) ∷ rs) = max t (latest now rs)

abbrev pub values {ℓ} : {A : Type ℓ} → List (Time × A) → List A
values [] = []
values ((t, a) ∷ rs) = a ∷ values rs

-- Polled from `now`, each future completes, with these instants and values.
abbrev pub Completes : {A : Type 0} → List (Async A) → Time → List (Time × A) → Type 0
Completes [] now [] = Unit
Completes [] now (r ∷ rs) = ⊥
Completes (f ∷ fs) now [] = ⊥
Completes (f ∷ fs) now ((t, a) ∷ rs) = (f now ≡ done t a) × Completes fs now rs

-- Polled from `now`, one of the futures unwinds.
abbrev pub AnyPanics : {A : Type 0} → List (Async A) → Time → Type 0
AnyPanics [] now = ⊥
AnyPanics (f ∷ fs) now = ((t : Time) × (f now ≡ panicked t)) ⊎ AnyPanics fs now

-- Polled from `now`, one of the futures never completes.
abbrev pub AnyHangs : {A : Type 0} → List (Async A) → Time → Type 0
AnyHangs [] now = ⊥
AnyHangs (f ∷ fs) now = (f now ≡ hangs) ⊎ AnyHangs fs now

pub record Runtime : Type 1 where
  -- How long after a deadline the timer may fire.
  pub lag : Duration
  pub timeout : {A : Type 0} → Duration → Async A → Async (Result A Elapsed)
  -- "If the future completes before the duration has elapsed, then the completed value is
  -- returned."
  pub timeout_done :
      {A : Type 0} (d : Duration) (f : Async A) (now t : Time) (a : A)
      → f now ≡ done t a
      → t < now + d
      → timeout d f now ≡ done t (ok a)
  -- The future is polled in place, so its panic is the caller's.
  pub timeout_panicked :
      {A : Type 0} (d : Duration) (f : Async A) (now t : Time)
      → f now ≡ panicked t
      → t < now + d
      → timeout d f now ≡ panicked t
  -- "Otherwise, an error is returned and the future is canceled." The futures are ones that yield:
  -- the timeout of one that blocks its thread is not checked. One that is ready at the deadline
  -- itself, so at once under a timeout of zero, counts as late.
  pub timeout_elapsed :
      {A : Type 0} (d : Duration) (f : Async A) (now : Time)
      → Late (now + d) (f now)
      → (t : Time) × (now + d ≤ t)
        × (t ≤ now + d + lag)
        × (timeout d f now ≡ done t (err elapsed_error))
  pub join_all : {A : Type 0} → List (Async A) → Async (List A)
  -- All futures are driven concurrently, and the outputs are in the order of the futures.
  pub join_all_done :
      {A : Type 0} (fs : List (Async A)) (now : Time) (rs : List (Time × A))
      → Completes fs now rs
      → join_all fs now ≡ done (latest now rs) (values rs)
  -- The futures are polled in one task, so a panic of one is the caller's.
  pub join_all_panicked :
      {A : Type 0} (fs : List (Async A)) (now : Time)
      → AnyPanics fs now
      → (t : Time) × (join_all fs now ≡ panicked t)
  -- The join waits for all of them.
  pub join_all_hangs :
      {A : Type 0} (fs : List (Async A)) (now : Time)
      → AnyHangs fs now
      → ¬ AnyPanics fs now
      → join_all fs now ≡ hangs
  pub JoinError : Type 0
  pub join_error_text : JoinError → Text
  -- Whether a task handed to the blocking pool at an instant is run, and not cancelled because
  -- the runtime shuts down.
  pub accepts : Time → Bool
  -- The future is the task from the call on, the wait for a free thread included.
  pub spawn_blocking : {A : Type 0} → Async A → Async (Result A JoinError)
  pub spawn_blocking_done :
      {A : Type 0} (f : Async A) (now t : Time) (a : A)
      → accepts now ≡ true
      → f now ≡ done t a
      → spawn_blocking f now ≡ done t (ok a)
  -- A panic of the task is caught and becomes the error of its handle.
  pub spawn_blocking_panicked :
      {A : Type 0} (f : Async A) (now t : Time)
      → accepts now ≡ true
      → f now ≡ panicked t
      → (e : JoinError) × (spawn_blocking f now ≡ done t (err e))
  pub spawn_blocking_hangs :
      {A : Type 0} (f : Async A) (now : Time)
      → accepts now ≡ true
      → f now ≡ hangs
      → spawn_blocking f now ≡ hangs
  pub spawn_blocking_refused :
      {A : Type 0} (f : Async A) (now : Time)
      → accepts now ≡ false
      → (t : Time) × (e : JoinError) × (spawn_blocking f now ≡ done t (err e))
