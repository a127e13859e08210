-- ===== src/Runner/Prune.antt =====
-- pkg/runner/task/prune.go and inventory.go: PruneTask.Run and InventoryTask.Run.
pub mod Keeps
use jpl.Base.{List, [], ◌∷◌, Option, none, some, Bool, true, false}
use jpl.Remote.{Error, Outcome, ok, err, is_not_found}
use jpl.Event.{
  Event, ActionInfo, type_prune, type_inventory, Status, status_pending, status_successful,
  status_failed,
}
use jpl.Inventory.Manager.{save_current_inventory_state}
use jpl.Resource.Object.{Unstructured, GroupKind, group_kind_of}
use jpl.Runner.State.{RunnerState, send_event, ask}

-- The mapper, and the deletion of an object: the resource, the dry run and the object.
pub record PruneSetup (R Mapping : Type 0) : Type 0 where
  pub rest_mapping : GroupKind → R → Outcome Mapping × R
  pub delete : Mapping → Bool → Unstructured → R → Option Error × R

-- pruneEvent
pub prune_event : Status → Unstructured → Option Error → Event
prune_event status obj error = type_prune (record { object = obj; status = status; error = error })

pub inventory_event : Status → Option Error → Event
inventory_event status error = type_inventory (record { status = status; error = error })

module _ {R Mapping : Type 0} (setup : PruneSetup R Mapping) (dry_run : Bool) where
  -- pruneObject
  pub prune_object : Unstructured → R → Option Error × R
  prune_object obj r =
      let (mapping, r') = setup.rest_mapping (group_kind_of obj) r in
      elim mapping as (λ m. Option Error × R) [
        | err e ↦ (some e, r')
        | ok found ↦ setup.delete found dry_run obj r'
      ]

  unless_missing : Bool → Unstructured → Error → RunnerState R → RunnerState R
  unless_missing true obj e s = s
  unless_missing false obj e s = send_event (prune_event status_failed obj (some e)) s

  -- What is sent once pruneObject has returned: nothing where the object was missing.
  report_prune : Unstructured → Option Error → RunnerState R → RunnerState R
  report_prune obj none s = send_event (prune_event status_successful obj none) s
  report_prune obj (some e) s = unless_missing (is_not_found e) obj e s

  -- PruneTask.Run
  pub run_prune : List Unstructured → RunnerState R → RunnerState R
  run_prune [] s = s
  run_prune (obj ∷ objs) s =
      let (error, s') =
        ask (prune_object obj) (send_event (prune_event status_pending obj none) s) in
      run_prune objs (report_prune obj error s')

module _ {R : Type 0} (save : List Unstructured → Bool → R → Option Error × R)
    (dry_run : Bool) where
  report_save : Option Error → RunnerState R → RunnerState R
  report_save none s = send_event (inventory_event status_successful none) s
  report_save (some e) s = send_event (inventory_event status_failed (some e)) s

  -- InventoryTask.Run
  pub run_inventory : RunnerState R → RunnerState R
  run_inventory s =
      let started = send_event (inventory_event status_pending none) s in
      let (error, s') = ask (save_current_inventory_state save started.manager dry_run) started in
      report_save error s'
