-- ===== src/Runner/Apply.antt =====
-- pkg/runner/task/apply.go: ApplyTask.Run. A filter, the info fetcher and the apply of one object
-- may ask the server; what they print is left out.
pub mod Keeps
pub mod Outcomes
pub mod Reached
use jpl.Base.{List, [], ◌∷◌, Option, none, some, Bool, true, false, if◌then◌else◌}
use jpl.Remote.{Error, Outcome, ok, err, is_unsupported_media_type}
use jpl.Event.{
  Event, ActionInfo, type_apply, Status, status_pending, status_successful, status_failed,
  status_skipped,
}
use jpl.Resource.Object.{Unstructured}
use jpl.Runner.State.{RunnerState, send_event, ask}

-- What Filter returns.
pub record Filtered : Type 0 where
  pub filtered : Bool
  pub error : Option Error

-- What a task of this kind is set up with.
pub record ApplySetup (R Info : Type 0) : Type 0 where
  pub filters : List (Unstructured → R → Filtered × R)
  pub info_fetcher : Unstructured → R → Outcome Info × R
  pub apply : Info → R → Option Error × R

-- applyEvent
pub apply_event : Status → Unstructured → Option Error → Event
apply_event status obj error = type_apply (record { object = obj; status = status; error = error })

-- skippedEvent
pub skipped_event : Unstructured → Event
skipped_event obj = type_apply (record { object = obj; status = status_skipped; error = none })

module _ {R Info : Type 0} (setup : ApplySetup R Info) where
  -- After a filter: it failed, it takes the object out, or the next one is asked.
  filter_answer :
      (RunnerState R → Bool × RunnerState R)
      → Unstructured
      → Option Error
      → Bool
      → RunnerState R
      → Bool × RunnerState R
  filter_answer next obj (some e) filtered s =
      (true, send_event (apply_event status_failed obj (some e)) s)
  filter_answer next obj none true s = (true, send_event (skipped_event obj) s)
  filter_answer next obj none false s = next s

  -- The loop over the filters: whether the object is filtered, and the state.
  pub run_filters :
      List (Unstructured → R → Filtered × R) → Unstructured → RunnerState R → Bool × RunnerState R
  run_filters [] obj s = (false, s)
  run_filters (filter ∷ filters) obj s =
      let (answer, s') = ask (filter obj) s in
      filter_answer (run_filters filters obj) obj answer.error answer.filtered s'

  -- After the apply: the flag says that the task bails out.
  report : Unstructured → Option Error → RunnerState R → Bool × RunnerState R
  report obj none s = (false, send_event (apply_event status_successful obj none) s)
  report obj (some e) s =
      (is_unsupported_media_type e, send_event (apply_event status_failed obj (some e)) s)

  apply_fetched : Unstructured → Outcome Info → RunnerState R → Bool × RunnerState R
  apply_fetched obj (err e) s = (false, send_event (apply_event status_failed obj (some e)) s)
  apply_fetched obj (ok info) s = let (error, s') = ask (setup.apply info) s in report obj error s'

  -- An object that no filter takes out.
  apply_unfiltered : Unstructured → RunnerState R → Bool × RunnerState R
  apply_unfiltered obj s =
      let (fetched, s') =
        ask (setup.info_fetcher obj) (send_event (apply_event status_pending obj none) s) in
      apply_fetched obj fetched s'

  unless_filtered : Unstructured → Bool × RunnerState R → Bool × RunnerState R
  unless_filtered obj (true, s) = (false, s)
  unless_filtered obj (false, s) = apply_unfiltered obj s

  -- The body of the loop over the objects.
  pub run_object : Unstructured → RunnerState R → Bool × RunnerState R
  run_object obj s = unless_filtered obj (run_filters setup.filters obj s)

  unless_bail_out : (RunnerState R → RunnerState R) → Bool × RunnerState R → RunnerState R
  unless_bail_out next (true, s) = s
  unless_bail_out next (false, s) = next s

  -- ApplyTask.Run
  pub run_apply : List Unstructured → RunnerState R → RunnerState R
  run_apply [] s = s
  run_apply (obj ∷ objs) s = unless_bail_out (run_apply objs) (run_object obj s)
