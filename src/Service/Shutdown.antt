-- ===== src/Service/Shutdown.antt =====
-- examples/k8s_service.rs, `shutdown_signal`: the wait for a signal, and what it does to the flag.
use healthkit.Base.{◌≡◌, Result, ok, err, Option, min}
use healthkit.Async.{Time, Outcome, done, panicked, hangs, Async, pure, ◌>>=◌}
use healthkit.Service.Setup.{AtomicBool, store_true}

-- What the wait uses of tokio. The operating system decides when a signal is there.
pub record Signals : Type 1 where
  pub SignalError : Type 0
  -- `tokio::signal::ctrl_c()`: it completes with SIGINT, or with an error where it cannot listen.
  pub ctrl_c : Async (Result (Unit {0}) SignalError)
  pub Terminate : Type 0
  -- `signal(SignalKind::terminate())`: it installs a handler, from the call on.
  pub install : Time → Result Terminate SignalError
  -- `sig.recv()`
  pub recv : Terminate → Async (Option (Unit {0}))
  -- `tokio::select!` over two branches that have nothing to return: it "waits on multiple concurrent
  -- branches, returning when the first branch completes, cancelling the remaining branches".
  pub select : Async (Unit {0}) → Async (Unit {0}) → Async (Unit {0})
  pub select_done :
      (f g : Async (Unit {0})) (now t u : Time)
      → f now ≡ done t tt
      → g now ≡ done u tt
      → select f g now ≡ done (min t u) tt
  pub select_left :
      (f g : Async (Unit {0})) (now t : Time)
      → f now ≡ done t tt
      → g now ≡ hangs
      → select f g now ≡ done t tt
  pub select_right :
      (f g : Async (Unit {0})) (now u : Time)
      → f now ≡ hangs
      → g now ≡ done u tt
      → select f g now ≡ done u tt
  pub select_hangs :
      (f g : Async (Unit {0})) (now : Time) → f now ≡ hangs → g now ≡ hangs → select f g now ≡ hangs

-- The flag after the wait, if it ever ends.
abbrev pub raised_by : Outcome (Unit {0}) → AtomicBool → AtomicBool
raised_by (done t u) flag = store_true t flag
raised_by (panicked t) flag = flag
raised_by hangs flag = flag

module _ (signals : Signals) where
  -- An error is printed, and the branch ends.
  unfoldable pub ctrl_c : Async (Unit {0})
  ctrl_c = do r ← signals.ctrl_c; pure tt

  unfoldable pub received : Result signals.Terminate signals.SignalError → Async (Unit {0})
  received (ok sig) = do r ← signals.recv sig; pure tt
  received (err e) = pure tt

  unfoldable pub terminate : Async (Unit {0})
  unfolding received
  terminate now = received (signals.install now) now

  unfoldable pub first_signal : Async (Unit {0})
  unfolding ctrl_c terminate
  first_signal = signals.select ctrl_c terminate

  -- The wait begins at an instant; the result is the flag that the other tasks load.
  unfoldable pub shutdown_signal : Time → AtomicBool → AtomicBool
  unfolding first_signal
  shutdown_signal began draining = raised_by (first_signal began) draining
