-- ===== src/Poller/Informer/Examples.antt =====
-- Run takes the lock, and is in the Run of the shared informer.
use jpl.Base.{refl, true, false, ◌≡◌}
use jpl.Poller.Informer.{
  Informer, in_shared_run, stop_called, lock_run, enter_shared, no_steps, and_step,
  new_informer_state,
}
use jpl.Poller.Informer.Blocked.{stop-waits}

abbrev running_informer : Informer
running_informer = record new_informer_state { locked = true; run = in_shared_run }

stop-waits_example :
    (running_informer.run ≡ in_shared_run)
    × (running_informer.stop ≡ stop_called)
    × (running_informer.cancelled ≡ false)
stop-waits_example =
    stop-waits (and_step (and_step no_steps (lock_run refl refl)) (enter_shared refl refl)) refl
      refl no_steps refl
