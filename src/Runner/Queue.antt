-- ===== src/Runner/Queue.antt =====
-- pkg/runner/runner.go: the tasks of a run and RunWithQueue, which takes them from a channel.
pub mod Traces
use jpl.Base.{List, [], ◌∷◌, ◌++◌, Option, none, some, Bool}
use jpl.Remote.{Error}
use jpl.Event.{Event}
use jpl.Resource.Object.{Unstructured}
use jpl.Runner.State.{RunnerState}
use jpl.Runner.Apply.{ApplySetup, run_apply}
use jpl.Runner.Prune.{PruneSetup, run_prune, run_inventory}
use jpl.Runner.Wait.{run_wait}

-- A task with its objects.
pub data Task : Type 0 where
  apply_task : List Unstructured → Task
  wait_task : List Unstructured → Task
  prune_task : List Unstructured → Task
  inventory_task : Task

-- What the tasks of one queue are set up with.
pub record TaskSetup (R Info Mapping : Type 0) : Type 0 where
  pub apply : ApplySetup R Info
  pub prune : PruneSetup R Mapping
  pub poll : List Unstructured → R → List Event × R
  pub reset_mapper : R → R
  pub save : List Unstructured → Bool → R → Option Error × R
  pub dry_run : Bool

module _ {R Info Mapping : Type 0} (setup : TaskSetup R Info Mapping) where
  -- Task.Run
  pub run_task : Task → RunnerState R → RunnerState R
  run_task (apply_task objs) s = run_apply setup.apply objs s
  run_task (wait_task objs) s = run_wait setup.poll setup.reset_mapper objs s
  run_task (prune_task objs) s = run_prune setup.prune setup.dry_run objs s
  run_task inventory_task s = run_inventory setup.save setup.dry_run s

  pub run_tasks : List Task → RunnerState R → RunnerState R
  run_tasks [] s = s
  run_tasks (t ∷ ts) s = run_tasks ts (run_task t s)

  -- RunWithQueue on the tasks of the channel: each time the select takes the next task, or sees that
  -- the channel is closed and empty, or that the context has ended, with its error. Go does not say
  -- which, where more than one is ready. The last two lists are the tasks that are left.
  pub data Runs
      : List Task → RunnerState R → Option Error → RunnerState R → List Task → Type 0 where
    closed : (s : RunnerState R) → Runs [] s none s []
    context_done : (ts : List Task) (s : RunnerState R) (e : Error) → Runs ts s (some e) s ts
    next :
        (t : Task) (ts : List Task) (s : RunnerState R) {error : Option Error} {s' : RunnerState R}
        {left : List Task}
        → Runs ts (run_task t s) error s' left
        → Runs (t ∷ ts) s error s' left
