-- ===== src/Poller/Informer/Blocked.antt =====
-- Who holds the lock of an informer.
use mathlib.Core.Bool.{true≢false}
use jpl.Base.{Bool, true, false, ◌||◌, ◌&&◌, ap, ◌≡◌, refl, sym, ◌∙◌, arith}
use jpl.Poller.Informer.{
  RunPc, run_called, run_locked, in_shared_run, run_returned, StopPc, stop_called, stop_locked,
  stop_returned, Informer, Step, lock_run, return_early, enter_shared, leave_shared, lock_stop,
  cancel, parent_ends, Steps, no_steps, and_step, new_informer_state,
}

abbrev run_holds : RunPc → Bool
run_holds run_called = false
run_holds run_locked = true
run_holds in_shared_run = true
run_holds run_returned = false

abbrev stop_holds : StopPc → Bool
stop_holds stop_called = false
stop_holds stop_locked = true
stop_holds stop_returned = false

-- The lock is held by one of the two, or it is free; only Stop cancels, and it has returned then.
record IsExclusive (s : Informer) : Type 0 where
  held : s.locked ≡ (run_holds s.run || stop_holds s.stop)
  apart : (run_holds s.run && stop_holds s.stop) ≡ false
  after_cancel : s.stop ≡ stop_called → s.cancelled ≡ false

Step-IsExclusive : {s t : Informer} → IsExclusive s → Step s t → IsExclusive t
Step-IsExclusive {s} e (lock_run r l) = record {
  held = refl;
  apart = ground (arith, e.held);
  after_cancel = e.after_cancel;
}
Step-IsExclusive e (return_early r f) = record {
  held = ground (arith, e.apart, ap run_holds r);
  apart = refl;
  after_cancel = e.after_cancel;
}
Step-IsExclusive e (enter_shared r f) = record {
  held = ground (arith, e.held, ap run_holds r);
  apart = ground (arith, e.apart, ap run_holds r);
  after_cancel = e.after_cancel;
}
Step-IsExclusive e (leave_shared r c) = record {
  held = ground (arith, e.apart, ap run_holds r);
  apart = refl;
  after_cancel = e.after_cancel;
}
Step-IsExclusive e (lock_stop p l) = record {
  held = ground arith;
  apart = ground (arith, e.held);
  after_cancel = λ h. absurd (cc h);
}
Step-IsExclusive e (cancel p) = record {
  held = ground (arith, e.apart, ap stop_holds p);
  apart = ground arith;
  after_cancel = λ h. absurd (cc h);
}
Step-IsExclusive e parent_ends = record {
  held = e.held;
  apart = e.apart;
  after_cancel = e.after_cancel;
}

Steps-IsExclusive : {s t : Informer} → IsExclusive s → Steps s t → IsExclusive t
Steps-IsExclusive e no_steps = e
Steps-IsExclusive e (and_step steps step) = Step-IsExclusive (Steps-IsExclusive e steps) step

-- Run is in the Run of the shared informer, and Stop waits.
record IsWaiting (s : Informer) : Type 0 where
  running : s.run ≡ in_shared_run
  locked : s.locked ≡ true
  waiting : s.stop ≡ stop_called
  going : s.cancelled ≡ false

Step-IsWaiting :
    {s t : Informer}
    → (s.parent_done ≡ false → IsWaiting s)
    → Step s t
    → t.parent_done ≡ false
    → IsWaiting t
Step-IsWaiting w (lock_run r l) d = absurd (true≢false (sym (w d).locked ∙ l))
Step-IsWaiting w (return_early r f) d = absurd (cc ((w d).running, r))
Step-IsWaiting w (enter_shared r f) d = absurd (cc ((w d).running, r))
Step-IsWaiting w (leave_shared r c) d = absurd (true≢false (ground (arith, (w d).going)))
Step-IsWaiting w (lock_stop p l) d = absurd (true≢false (sym (w d).locked ∙ l))
Step-IsWaiting w (cancel p) d = absurd (cc ((w d).waiting, p))
Step-IsWaiting w parent_ends d = absurd (true≢false d)

Steps-IsWaiting : {s t : Informer} → IsWaiting s → Steps s t → t.parent_done ≡ false → IsWaiting t
Steps-IsWaiting w no_steps d = w
Steps-IsWaiting w (and_step steps step) d = Step-IsWaiting (Steps-IsWaiting w steps) step d

-- Where Run has got the lock first and is in the Run of the shared informer, Stop does nothing: whatever
-- steps follow, as long as the context of the multiplexer has not ended, Run has not returned, and Stop
-- waits for the lock.
pub stop-waits :
    {s t : Informer}
    → Steps new_informer_state s
    → s.run ≡ in_shared_run
    → s.stop ≡ stop_called
    → Steps s t
    → t.parent_done ≡ false
    → (t.run ≡ in_shared_run) × (t.stop ≡ stop_called) × (t.cancelled ≡ false)
stop-waits {s} reached r p steps d =
    let e =
      Steps-IsExclusive (record { held = refl; apart = refl; after_cancel = λ h. refl }) reached in
    let w =
      Steps-IsWaiting
        (record {
          running = r;
          locked = ground (arith, e.held, ap run_holds r);
          waiting = p;
          going = e.after_cancel p;
        })
        steps d in
    (w.running, w.waiting, w.going)
