-- ===== src/Runner/Prune/Keeps.antt =====
-- What the events of a prune and the requests keep, PruneTask.Run keeps; likewise InventoryTask.Run.
-- And what PruneTask.Run says of its objects.
use jpl.Base.{List, [], ◌∷◌, Option, none, some, Bool, true, false}
use jpl.Remote.{Error, is_not_found}
use jpl.Event.{Status, status_pending, status_successful, status_failed}
use jpl.Resource.Object.{Unstructured}
use jpl.Runner.State.{RunnerState, send_event}
use jpl.Runner.Prune.{
  PruneSetup, prune_event, inventory_event, prune_object, unless_missing, report_prune, run_prune,
  report_save, run_inventory,
}
use jpl.Inventory.Manager.{new_inventory, save_current_inventory_state}

module _ {R Mapping : Type 0} (setup : PruneSetup R Mapping) (dry_run : Bool)
    (P : RunnerState R → Type 0)
    (on_prune : (status : Status) (obj : Unstructured) (error : Option Error) (s : RunnerState R)
      → P s
      → P (send_event (prune_event status obj error) s))
    (on_remote : (r : R) (s : RunnerState R) → P s → P (record s { remote = r })) where
  unless_missing-keeps :
      (missing : Bool) (obj : Unstructured) (e : Error) (s : RunnerState R)
      → P s
      → P (unless_missing setup dry_run missing obj e s)
  unfolding unless_missing
  unless_missing-keeps true obj e s h = h
  unless_missing-keeps false obj e s h = on_prune status_failed obj (some e) s h

  report_prune-keeps :
      (obj : Unstructured) (error : Option Error) (s : RunnerState R)
      → P s
      → P (report_prune setup dry_run obj error s)
  unfolding report_prune
  report_prune-keeps obj none s h = on_prune status_successful obj none s h
  report_prune-keeps obj (some e) s h = unless_missing-keeps (is_not_found e) obj e s h

  pub run_prune-keeps :
      (objs : List Unstructured) (s : RunnerState R) → P s → P (run_prune setup dry_run objs s)
  unfolding run_prune
  run_prune-keeps [] s h = h
  run_prune-keeps (obj ∷ objs) s h =
      let pending : RunnerState R = send_event (prune_event status_pending obj none) s in
      run_prune-keeps objs _ (
        report_prune-keeps obj (prune_object setup dry_run obj pending.remote).0 _ (
          on_remote (prune_object setup dry_run obj pending.remote).1 pending
            (on_prune status_pending obj none s h)))

module _ {R : Type 0} (save : List Unstructured → Bool → R → Option Error × R) (dry_run : Bool)
    (P : RunnerState R → Type 0)
    (on_inventory : (status : Status) (error : Option Error) (s : RunnerState R)
      → P s
      → P (send_event (inventory_event status error) s))
    (on_remote : (r : R) (s : RunnerState R) → P s → P (record s { remote = r })) where
  report_save-keeps :
      (error : Option Error) (s : RunnerState R) → P s → P (report_save save dry_run error s)
  unfolding report_save
  report_save-keeps none s h = on_inventory status_successful none s h
  report_save-keeps (some e) s h = on_inventory status_failed (some e) s h

  pub run_inventory-keeps : (s : RunnerState R) → P s → P (run_inventory save dry_run s)
  unfolding run_inventory save_current_inventory_state
  run_inventory-keeps s h =
      let started : RunnerState R = send_event (inventory_event status_pending none) s in
      report_save-keeps (save (new_inventory started.manager) dry_run started.remote).0 _ (
        on_remote (save (new_inventory started.manager) dry_run started.remote).1 started
          (on_inventory status_pending none s h))
