-- ===== src/Async.antt =====
-- Rust's futures: what awaiting one from a given instant leads to. An instant is a number of
-- nanoseconds on the monotonic clock (`std::time::Instant`).
pub mod Runtime
pub mod Ideal
use healthkit.Base.{ℕ, ◌-◌}

abbrev pub Time : Type 0
Time = ℕ

-- A future completes with a value, unwinds, or never becomes ready.
pub data Outcome {ℓ} (A : Type ℓ) : Type ℓ where
  done : Time → A → Outcome A
  panicked : Time → Outcome A
  hangs : Outcome A

-- A future, as a function of the instant from which it is polled.
abbrev pub Async {ℓ} : Type ℓ → Type ℓ
Async A = Time → Outcome A

abbrev pub pure {ℓ} : {A : Type ℓ} → A → Async A
pure a now = done now a

abbrev pub continue {ℓ κ} : {A : Type ℓ} {B : Type κ} → Outcome A → (A → Async B) → Outcome B
continue (done t a) f = f a t
continue (panicked t) f = panicked t
continue hangs f = hangs

-- `.await`, and the rest of the block.
infixl 5 ◌>>=◌
abbrev pub ◌>>=◌ {ℓ κ} : {A : Type ℓ} {B : Type κ} → Async A → (A → Async B) → Async B
◌>>=◌ m f now = continue (m now) f

-- `Instant::now()`
abbrev pub instant_now : Async Time
instant_now now = done now now

-- `start.elapsed()`: it saturates at zero, as `-` does.
abbrev pub elapsed : Time → Async ℕ
elapsed start now = done now (now - start)
