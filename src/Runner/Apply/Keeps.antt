-- ===== src/Runner/Apply/Keeps.antt =====
-- What the events of an apply and the requests keep, ApplyTask.Run keeps.
use jpl.Base.{List, [], ◌∷◌, Option, none, some, Bool, true, false}
use jpl.Remote.{Error, Outcome, ok, err}
use jpl.Event.{Status, status_pending, status_successful, status_failed, status_skipped}
use jpl.Resource.Object.{Unstructured}
use jpl.Runner.State.{RunnerState, send_event}
use jpl.Runner.Apply.{
  filter_answer, unless_filtered, unless_bail_out, Filtered, ApplySetup, apply_event, skipped_event,
  run_filters, report, apply_fetched, apply_unfiltered, run_object, run_apply,
}

module _ {R Info : Type 0} (setup : ApplySetup R Info) (P : RunnerState R → Type 0)
    (Q : Unstructured → Type 0)
    (on_apply : (status : Status) (obj : Unstructured) (error : Option Error) (s : RunnerState R)
      → Q obj
      → P s
      → P (send_event (apply_event status obj error) s))
    (on_remote : (r : R) (s : RunnerState R) → P s → P (record s { remote = r })) where
  filter_answer-keeps :
      (next : RunnerState R → Bool × RunnerState R) (obj : Unstructured) (error : Option Error)
      (filtered : Bool) (s : RunnerState R)
      → ((s' : RunnerState R) → P s' → P (next s').1)
      → Q obj
      → P s
      → P (filter_answer setup next obj error filtered s).1
  unfolding filter_answer skipped_event apply_event
  filter_answer-keeps next obj (some e) filtered s hn q h =
      on_apply status_failed obj (some e) s q h
  filter_answer-keeps next obj none true s hn q h = on_apply status_skipped obj none s q h
  filter_answer-keeps next obj none false s hn q h = hn s h

  run_filters-keeps :
      (filters : List (Unstructured → R → Filtered × R)) (obj : Unstructured) (s : RunnerState R)
      → Q obj
      → P s
      → P (run_filters setup filters obj s).1
  unfolding run_filters
  run_filters-keeps [] obj s q h = h
  run_filters-keeps (filter ∷ filters) obj s q h =
      filter_answer-keeps _ obj _ _ _ (λ s'. run_filters-keeps filters obj s' q) q
        (on_remote (filter obj s.remote).1 s h)

  report-keeps :
      (obj : Unstructured) (error : Option Error) (s : RunnerState R)
      → Q obj
      → P s
      → P (report setup obj error s).1
  unfolding report
  report-keeps obj none s q h = on_apply status_successful obj none s q h
  report-keeps obj (some e) s q h = on_apply status_failed obj (some e) s q h

  apply_fetched-keeps :
      (obj : Unstructured) (fetched : Outcome Info) (s : RunnerState R)
      → Q obj
      → P s
      → P (apply_fetched setup obj fetched s).1
  unfolding apply_fetched
  apply_fetched-keeps obj (err e) s q h = on_apply status_failed obj (some e) s q h
  apply_fetched-keeps obj (ok info) s q h =
      report-keeps obj (setup.apply info s.remote).0 _ q
        (on_remote (setup.apply info s.remote).1 s h)

  unless_filtered-keeps :
      (obj : Unstructured) (r : Bool × RunnerState R)
      → Q obj
      → P r.1
      → P (unless_filtered setup obj r).1
  unfolding unless_filtered apply_unfiltered
  unless_filtered-keeps obj (true, s) q h = h
  unless_filtered-keeps obj (false, s) q h =
      let pending : RunnerState R = send_event (apply_event status_pending obj none) s in
      apply_fetched-keeps obj (setup.info_fetcher obj pending.remote).0 _ q (
        on_remote (setup.info_fetcher obj pending.remote).1 pending
          (on_apply status_pending obj none s q h))

  -- A property that the events of an object and the requests keep, the object's turn keeps.
  pub run_object-keeps :
      (obj : Unstructured) (s : RunnerState R) → Q obj → P s → P (run_object setup obj s).1
  unfolding run_object
  run_object-keeps obj s q h =
      unless_filtered-keeps obj (run_filters setup setup.filters obj s) q
        (run_filters-keeps setup.filters obj s q h)

module _ {R Info : Type 0} (setup : ApplySetup R Info) (P : RunnerState R → Type 0)
    (on_apply : (status : Status) (obj : Unstructured) (error : Option Error) (s : RunnerState R)
      → P s
      → P (send_event (apply_event status obj error) s))
    (on_remote : (r : R) (s : RunnerState R) → P s → P (record s { remote = r })) where
  unless_bail_out-keeps :
      (next : RunnerState R → RunnerState R) (r : Bool × RunnerState R)
      → ((s : RunnerState R) → P s → P (next s))
      → P r.1
      → P (unless_bail_out setup next r)
  unfolding unless_bail_out
  unless_bail_out-keeps next (true, s) hn h = h
  unless_bail_out-keeps next (false, s) hn h = hn s h

  -- A property that the events of an apply and the requests keep, a run of the task keeps.
  pub run_apply-keeps :
      (objs : List Unstructured) (s : RunnerState R) → P s → P (run_apply setup objs s)
  unfolding run_apply
  run_apply-keeps [] s h = h
  run_apply-keeps (obj ∷ objs) s h =
      unless_bail_out-keeps (run_apply setup objs) (run_object setup obj s) (run_apply-keeps objs) (
        run_object-keeps setup P (λ o. Unit) (λ status o error t q k. on_apply status o error t k)
          on_remote obj s tt h)
