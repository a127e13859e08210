-- ===== src/Runner/Apply/Outcomes.antt =====
-- What ApplyTask.Run says of each of its objects.
use mathlib.Core.List.{Mem, mem-cons, not-mem-nil}
use mathlib.Core.Logic.Or
use mathlib.Core.Bool.{Bool-set}
use jpl.Base.{List, [], ◌∷◌, Option, none, some, Bool, true, false, ◌≡◌, ◌≢◌, refl, arith}
use jpl.Base.Maps.{get}
use jpl.Remote.{Error, Outcome, ok, err, is_unsupported_media_type}
use jpl.Event.{Status, status_pending, status_successful, status_failed, status_skipped}
use jpl.Inventory.Manager.{
  ObjectStatus, apply_successfull, apply_failed, skipped, delete_successfull, delete_failed,
}
use jpl.Resource.Object.{Unstructured, object_discrete}
use jpl.Runner.State.{RunnerState, send_event}
use jpl.Runner.State.Faithful.{register-get}
use jpl.Runner.Apply.{
  Filtered, ApplySetup, apply_event, skipped_event, filter_answer, run_filters, report,
  apply_fetched, apply_unfiltered, unless_filtered, run_object, unless_bail_out, run_apply,
}
use jpl.Runner.Apply.Keeps.{run_apply-keeps}

-- An apply has succeeded, failed or been skipped.
abbrev pub is_decided : Option ObjectStatus → Bool
is_decided none = false
is_decided (some apply_successfull) = true
is_decided (some apply_failed) = true
is_decided (some skipped) = true
is_decided (some delete_successfull) = false
is_decided (some delete_failed) = false

-- The server never answers that it does not support the request.
abbrev pub IsSupported : {R Info : Type 0} → ApplySetup R Info → Type 0
IsSupported {R} {Info} setup =
    (info : Info) (r : R) (e : Error)
    → (setup.apply info r).0 ≡ some e
    → is_unsupported_media_type e ≡ false

module _ {R Info : Type 0} (setup : ApplySetup R Info) (obj : Unstructured) where
  abbrev pub IsDecided : RunnerState R → Type 0
  IsDecided s = is_decided (get object_discrete obj s.manager.object_statuses) ≡ true

  pub apply_event-IsDecided :
      (status : Status) (other : Unstructured) (error : Option Error) (s : RunnerState R)
      → IsDecided s
      → IsDecided (send_event (apply_event status other error) s)
  unfolding send_event apply_event
  apply_event-IsDecided status other error s h =
      ground (arith, register-get (apply_event status other error) obj s.manager)

  decides :
      (status : Status) (error : Option Error) (s : RunnerState R)
      → status ≢ status_pending
      → IsDecided (send_event (apply_event status obj error) s)
  unfolding send_event apply_event
  decides status error s final =
      ground (arith, register-get (apply_event status obj error) obj s.manager)

  filter_answer-decides :
      (next : RunnerState R → Bool × RunnerState R) (error : Option Error) (filtered : Bool)
      (s : RunnerState R)
      → ((s' : RunnerState R) → (next s').0 ≡ true → IsDecided (next s').1)
      → (filter_answer setup next obj error filtered s).0 ≡ true
      → IsDecided (filter_answer setup next obj error filtered s).1
  unfolding filter_answer skipped_event apply_event
  filter_answer-decides next (some e) filtered s hn h = decides status_failed (some e) s (cc)
  filter_answer-decides next none true s hn h = decides status_skipped none s (cc)
  filter_answer-decides next none false s hn h = hn s h

  run_filters-decides :
      (filters : List (Unstructured → R → Filtered × R)) (s : RunnerState R)
      → (run_filters setup filters obj s).0 ≡ true
      → IsDecided (run_filters setup filters obj s).1
  unfolding run_filters
  run_filters-decides [] s h = absurd (cc)
  run_filters-decides (filter ∷ filters) s h =
      filter_answer-decides (run_filters setup filters obj) (filter obj s.remote).0.error
        (filter obj s.remote).0.filtered _ (run_filters-decides filters) h

  report-decides :
      (error : Option Error) (s : RunnerState R) → IsDecided (report setup obj error s).1
  unfolding report
  report-decides none s = decides status_successful none s (cc)
  report-decides (some e) s = decides status_failed (some e) s (cc)

  apply_fetched-decides :
      (fetched : Outcome Info) (s : RunnerState R) → IsDecided (apply_fetched setup obj fetched s).1
  unfolding apply_fetched
  apply_fetched-decides (err e) s = decides status_failed (some e) s (cc)
  apply_fetched-decides (ok info) s = report-decides (setup.apply info s.remote).0 _

  unless_filtered-decides :
      (r : Bool × RunnerState R)
      → (r.0 ≡ true → IsDecided r.1)
      → IsDecided (unless_filtered setup obj r).1
  unfolding unless_filtered apply_unfiltered
  unless_filtered-decides (true, s) h = h refl
  unless_filtered-decides (false, s) h = apply_fetched-decides _ _

  pub run_object-decides : (s : RunnerState R) → IsDecided (run_object setup obj s).1
  unfolding run_object
  run_object-decides s =
      unless_filtered-decides (run_filters setup setup.filters obj s)
        (run_filters-decides setup.filters s)

module _ {R Info : Type 0} (setup : ApplySetup R Info) (supported : IsSupported setup) where
  report-goes_on :
      (obj : Unstructured) (error : Option Error) (s : RunnerState R)
      → ((e : Error) → error ≡ some e → is_unsupported_media_type e ≡ false)
      → (report setup obj error s).0 ≡ false
  unfolding report
  report-goes_on obj none s h = refl
  report-goes_on obj (some e) s h = h e refl

  apply_fetched-goes_on :
      (obj : Unstructured) (fetched : Outcome Info) (s : RunnerState R)
      → (apply_fetched setup obj fetched s).0 ≡ false
  unfolding apply_fetched
  apply_fetched-goes_on obj (err e) s = refl
  apply_fetched-goes_on obj (ok info) s =
      report-goes_on obj (setup.apply info s.remote).0 _ (supported info s.remote)

  unless_filtered-goes_on :
      (obj : Unstructured) (r : Bool × RunnerState R) → (unless_filtered setup obj r).0 ≡ false
  unfolding unless_filtered apply_unfiltered
  unless_filtered-goes_on obj (true, s) = refl
  unless_filtered-goes_on obj (false, s) = apply_fetched-goes_on obj _ _

  unless_bail_out-goes_on :
      (next : RunnerState R → RunnerState R) (r : Bool × RunnerState R)
      → r.0 ≡ false
      → unless_bail_out setup next r ≡ next r.1
  unfolding unless_bail_out
  unless_bail_out-goes_on next (true, s) h = absurd (cc)
  unless_bail_out-goes_on next (false, s) h = refl

  run_apply-cons :
      (obj : Unstructured) (objs : List Unstructured) (s : RunnerState R)
      → run_apply setup (obj ∷ objs) s ≡ run_apply setup objs (run_object setup obj s).1
  unfolding run_apply run_object
  run_apply-cons obj objs s =
      unless_bail_out-goes_on (run_apply setup objs) (run_object setup obj s)
        (unless_filtered-goes_on obj (run_filters setup setup.filters obj s))

  -- Where the server never answers that it does not support the request, the task leaves none of its
  -- objects without an outcome: the manager holds that its apply succeeded, failed or was skipped.
  pub run_apply-decides :
      (objs : List Unstructured) (s : RunnerState R) (obj : Unstructured)
      → Mem obj objs
      → is_decided (get object_discrete obj (run_apply setup objs s).manager.object_statuses) ≡ true
  run_apply-decides [] s obj m = absurd (not-mem-nil m)
  run_apply-decides (o ∷ objs) s obj m = rw (run_apply-cons o objs s) (
      Or.elim (Bool-set _ _) (mem-cons.0 m)
        (λ e.
          run_apply-keeps setup (IsDecided setup obj) (apply_event-IsDecided setup obj)
            (λ r s' h. h) objs _ (rw e (run_object-decides setup o s)))
        (run_apply-decides objs (run_object setup o s).1 obj))
