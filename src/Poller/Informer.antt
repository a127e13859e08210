-- ===== src/Poller/Informer.antt =====
-- pkg/poller/informer.go: an informer, with the calls of Run and Stop by two goroutines. SharedInformer's
-- Run is a parameter, of which this relies on its documentation: it returns after its stop channel, the
-- end of the context, is closed.
pub mod Blocked
mod Examples
use jpl.Base.{Bool, true, false, ◌||◌, ◌≡◌}
use jpl.Remote.{Error, Outcome, ok, err}
use jpl.Poller.Start.{InformerResource}

-- newInformer: the error of the mapper, or an informer whose context is a child of the one given.
pub record NewInformer (Mapping : Type 0) : Type 0 where
  pub mapping : Mapping
  pub started : Bool
  pub cancelled : Bool

pub new_informer :
    {Mapping : Type 0}
    → (InformerResource → Outcome Mapping)
    → Bool
    → InformerResource
    → Outcome (NewInformer Mapping)
new_informer rest_mapping over r = elim (rest_mapping r) [
  | err e ↦ err e
  | ok mapping ↦ ok (record { mapping = mapping; started = false; cancelled = over })
]

-- Where the call of Run stands: before the lock, with it, in the Run of the shared informer, and over.
pub data RunPc : Type 0 where
  run_called : RunPc
  run_locked : RunPc
  in_shared_run : RunPc
  run_returned : RunPc

pub data StopPc : Type 0 where
  stop_called : StopPc
  stop_locked : StopPc
  stop_returned : StopPc

pub record Informer : Type 0 where
  pub locked : Bool
  pub started : Bool
  pub cancelled : Bool
  pub parent_done : Bool
  pub run : RunPc
  pub stop : StopPc

pub data Step (s : Informer) : Informer → Type 0 where
  lock_run :
      s.run ≡ run_called → s.locked ≡ false → Step s (record s { locked = true; run = run_locked })
  return_early :
      s.run ≡ run_locked
      → s.started ≡ true
      → Step s (record s { locked = false; run = run_returned })
  enter_shared : s.run ≡ run_locked → s.started ≡ false → Step s (record s { run = in_shared_run })
  leave_shared :
      s.run ≡ in_shared_run
      → (s.cancelled || s.parent_done) ≡ true
      → Step s (record s { started = true; locked = false; run = run_returned })
  lock_stop :
      s.stop ≡ stop_called
      → s.locked ≡ false
      → Step s (record s { locked = true; stop = stop_locked })
  cancel :
      s.stop ≡ stop_locked
      → Step s (record s { cancelled = true; locked = false; stop = stop_returned })
  -- The context of the multiplexer ends.
  parent_ends : Step s (record s { parent_done = true })

pub data Steps (s : Informer) : Informer → Type 0 where
  no_steps : Steps s s
  and_step : {t u : Informer} → Steps s t → Step t u → Steps s u

abbrev pub new_informer_state : Informer
new_informer_state = record {
  locked = false;
  started = false;
  cancelled = false;
  parent_done = false;
  run = run_called;
  stop = stop_called;
}
