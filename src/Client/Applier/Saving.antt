-- ===== src/Client/Applier/Saving.antt =====
-- What a run has executed when it ends: whether the inventory was saved.
use jpl.Base.{List, [], ◌∷◌, ◌++◌, Option, some, ◌≡◌, All}
use jpl.Remote.{Error}
use jpl.Runner.State.{RunnerState}
use jpl.Runner.Queue.{Task, apply_task, wait_task, prune_task, inventory_task, TaskSetup, run_tasks}
use jpl.Client.Applier.{Applier, ApplierOptions}

-- A task that is not the one that saves the inventory.
abbrev pub IsOther : Task → Type 0
IsOther inventory_task = ⊥
IsOther (apply_task objs) = Unit
IsOther (wait_task objs) = Unit
IsOther (prune_task objs) = Unit

module _ {R Info Mapping : Type 0} (a : Applier R Info Mapping) (options : ApplierOptions) where
  abbrev setup : TaskSetup R Info Mapping
  setup = a.tasks options.dry_run

  -- How a run of a queue ends: with the inventory, saved as its last task, or with an error and the
  -- tasks that are left, of which the one that saves the inventory is the last.
  pub data IsEnding (ts : List Task) (s : RunnerState R)
      : Option Error → RunnerState R → List Task → Type 0 where
    saved :
        (before : List Task) (error : Option Error) (s' : RunnerState R)
        → All IsOther before
        → before ++ (inventory_task ∷ []) ≡ ts
        → run_tasks (a.tasks options.dry_run) ts s ≡ s'
        → IsEnding ts s error s' []
    unsaved :
        (done more : List Task) (e : Error) (s' : RunnerState R)
        → All IsOther done
        → done ++ (more ++ (inventory_task ∷ [])) ≡ ts
        → run_tasks (a.tasks options.dry_run) done s ≡ s'
        → IsEnding ts s (some e) s' (more ++ (inventory_task ∷ []))
