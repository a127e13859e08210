-- ===== src/Runner/Queue/Traces.antt =====
-- What holds of every run of a queue, however its select decides.
use mathlib.Core.List.{Nodup-nil}
use jpl.Base.{List, [], ◌∷◌, ◌++◌, Option, none, ◌≡◌, refl, ap, ◌∙◌}
use jpl.Base.Sets.{contains}
use jpl.Base.Maps.{get}
use jpl.Event.{Event}
use jpl.Inventory.Manager.{new_inventory, is_tracked, new_manager}
use jpl.Inventory.Manager.Saved.{is_saved, contains-new_inventory}
use jpl.Remote.{Error}
use jpl.Resource.Object.{Unstructured, object_discrete}
use jpl.Runner.State.{RunnerState, send_event}
use jpl.Runner.State.Faithful.{IsFaithful, send_event-IsFaithful, last_said, register-starting}
use jpl.Runner.Apply.{apply_event}
use jpl.Runner.Apply.Keeps.{run_apply-keeps}
use jpl.Runner.Prune.{prune_event, inventory_event}
use jpl.Runner.Prune.Keeps.{run_prune-keeps, run_inventory-keeps}
use jpl.Runner.Wait.Keeps.{run_wait-keeps}
use jpl.Runner.Queue.{
  Task, apply_task, wait_task, prune_task, inventory_task, TaskSetup, run_task, run_tasks, Runs,
  closed, context_done, next,
}

module _ {R Info Mapping : Type 0} (setup : TaskSetup R Info Mapping) where
  -- A run executes a first part of the queue, in order and each task once, and leaves the rest.
  pub record IsPrefixRun (ts : List Task) (s : RunnerState R) (error : Option Error)
      (s' : RunnerState R) (left : List Task) : Type 0 where
    pub done : List Task
    pub in_order : done ++ left ≡ ts
    pub state : run_tasks setup done s ≡ s'
    pub all_done : error ≡ none → left ≡ []

  -- However the select decides, RunWithQueue has executed a first part of the queue, in order and each
  -- task once; where it returns no error this is the whole queue.
  pub Runs-prefix :
      {ts : List Task} {s : RunnerState R} {error : Option Error} {s' : RunnerState R}
      {left : List Task}
      → Runs setup ts s error s' left
      → IsPrefixRun ts s error s' left
  unfolding run_tasks
  Runs-prefix (closed s) = record { done = []; in_order = refl; state = refl; all_done = λ e. refl }
  Runs-prefix (context_done ts s e) = record {
    done = [];
    in_order = refl;
    state = refl;
    all_done = λ h. absurd (cc);
  }
  Runs-prefix (next t ts s r) =
      let rest = Runs-prefix r in
      record {
        done = t ∷ rest.done;
        in_order = ap (λ l. t ∷ l) rest.in_order;
        state = rest.state;
        all_done = rest.all_done;
      }

  module _ (P : RunnerState R → Type 0)
      (on_event : (e : Event) (s : RunnerState R) → P s → P (send_event e s))
      (on_remote : (r : R) (s : RunnerState R) → P s → P (record s { remote = r })) where
    run_task-keeps : (t : Task) (s : RunnerState R) → P s → P (run_task setup t s)
    unfolding run_task
    run_task-keeps (apply_task objs) s h =
        run_apply-keeps setup.apply P
          (λ status obj error s' h'. on_event (apply_event status obj error) s' h') on_remote objs s
          h
    run_task-keeps (wait_task objs) s h =
        run_wait-keeps P on_event on_remote setup.poll setup.reset_mapper objs s h
    run_task-keeps (prune_task objs) s h =
        run_prune-keeps setup.prune setup.dry_run P
          (λ status obj error s' h'. on_event (prune_event status obj error) s' h') on_remote objs s
          h
    run_task-keeps inventory_task s h =
        run_inventory-keeps setup.save setup.dry_run P
          (λ status error s' h'. on_event (inventory_event status error) s' h') on_remote s h

    Runs-keeps :
        {ts : List Task} {s : RunnerState R} {error : Option Error} {s' : RunnerState R}
        {left : List Task}
        → Runs setup ts s error s' left
        → P s
        → P s'
    Runs-keeps (closed s) h = h
    Runs-keeps (context_done ts s e) h = h
    Runs-keeps (next t ts s r) h = Runs-keeps r (run_task-keeps t s h)

  -- However a run goes, the manager's statuses stay what the events that were sent say last.
  pub Runs-IsFaithful :
      {ts : List Task} {s : RunnerState R} {error : Option Error} {s' : RunnerState R}
      {left : List Task}
      → Runs setup ts s error s' left
      → IsFaithful s
      → IsFaithful s'
  Runs-IsFaithful r h =
      Runs-keeps IsFaithful send_event-IsFaithful
        (λ remote s' h'. record { distinct = h'.distinct; last = h'.last }) r h

abbrev pub new_state : {R : Type 0} → List Unstructured → R → RunnerState R
new_state starting r = record { events = []; manager = new_manager starting; remote = r }

pub new_state-IsFaithful :
    {R : Type 0} (starting : List Unstructured) (r : R) → IsFaithful (new_state starting r)
unfolding new_manager get
new_state-IsFaithful starting r = record { distinct = Nodup-nil; last = λ obj. refl }

saved :
    {R : Type 0} (s : RunnerState R) (obj : Unstructured)
    → IsFaithful s
    → contains object_discrete obj (new_inventory s.manager)
      ≡ is_saved (is_tracked obj s.manager.starting_objects) (last_said obj none s.events)
saved s obj h =
    contains-new_inventory s.manager obj h.distinct
    ∙ ap (is_saved (is_tracked obj s.manager.starting_objects)) (h.last obj)

-- After a run that starts with a new manager, however it goes, the inventory that the manager would
-- save holds an object exactly as the last event that was sent of it says, and whether its identity
-- was in the inventory before the run.
pub Runs-saved :
    {R Info Mapping : Type 0} (setup : TaskSetup R Info Mapping) (starting : List Unstructured)
    (r : R) {ts : List Task} {error : Option Error} {s' : RunnerState R} {left : List Task}
    → Runs setup ts (new_state starting r) error s' left
    → (obj : Unstructured)
    → contains object_discrete obj (new_inventory s'.manager)
      ≡ is_saved (is_tracked obj starting) (last_said obj none s'.events)
unfolding new_manager send_event
Runs-saved setup starting r {ts} {error} {s'} {left} run obj =
    saved s' obj (Runs-IsFaithful setup run (new_state-IsFaithful starting r))
    ∙ ap (λ l. is_saved (is_tracked obj l) (last_said obj none s'.events)) same
  where
    same : s'.manager.starting_objects ≡ starting
    same =
        Runs-keeps setup (λ s. s.manager.starting_objects ≡ starting)
          (λ e s h. register-starting e s.manager ∙ h) (λ r' s h. h) run refl
