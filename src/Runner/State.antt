-- ===== src/Runner/State.antt =====
-- pkg/client/runner_state.go: RunnerState, which registers what an event says of an object in the
-- manager before it sends the event on.
pub mod Faithful
use jpl.Base.{List, [], ◌∷◌, ◌++◌, Bool, ◌||◌}
use jpl.Event.{
  Event, type_error, type_queue, type_apply, type_prune, type_inventory, type_status_update, Status,
  status_pending, status_successful, status_failed, status_skipped,
}
use jpl.Inventory.Manager.{
  Manager, apply_successfull, apply_failed, delete_successfull, delete_failed, skipped, set_status,
  is_failed_apply, is_skipped,
}
use jpl.Resource.Object.{Unstructured}

-- A run: the events that were sent, the manager, and the remote side, of which `R` is the state.
pub record RunnerState (R : Type 0) : Type 0 where
  pub events : List Event
  pub manager : Manager
  pub remote : R

-- registerEventInManager, for an apply
register_apply : Status → Unstructured → Manager → Manager
register_apply status_successful obj m = set_status obj apply_successfull m
register_apply status_failed obj m = set_status obj apply_failed m
register_apply status_skipped obj m = set_status obj skipped m
register_apply status_pending obj m = m

-- registerEventInManager, for a prune
register_prune : Status → Unstructured → Manager → Manager
register_prune status_successful obj m = set_status obj delete_successfull m
register_prune status_failed obj m = set_status obj delete_failed m
register_prune status_skipped obj m = m
register_prune status_pending obj m = m

pub register_event_in_manager : Event → Manager → Manager
register_event_in_manager (type_apply i) m = register_apply i.status i.object m
register_event_in_manager (type_prune i) m = register_prune i.status i.object m
register_event_in_manager (type_error e) m = m
register_event_in_manager (type_queue objs) m = m
register_event_in_manager (type_inventory i) m = m
register_event_in_manager (type_status_update i) m = m

-- SkipWaitCurrentStatus
pub skip_wait_current_status : Unstructured → Manager → Bool
skip_wait_current_status obj m = is_failed_apply obj m || is_skipped obj m

module _ {R : Type 0} where
  -- SendEvent
  unfoldable pub send_event : Event → RunnerState R → RunnerState R
  send_event e s = record s {
    events = s.events ++ (e ∷ []);
    manager = register_event_in_manager e s.manager;
  }

  -- A request to the remote side, which answers and moves on.
  abbrev pub ask : {A : Type 0} → (R → A × R) → RunnerState R → A × RunnerState R
  ask request s = let (a, r) = request s.remote in (a, record s { remote = r })
