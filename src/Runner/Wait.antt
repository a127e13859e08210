-- ===== src/Runner/Wait.antt =====
-- pkg/runner/task/wait.go: WaitTask.Run. The poller answers with the messages of its channel, up to
-- the point where the channel is closed.
pub mod Keeps
pub mod Ready
use jpl.Base.{Str, List, [], ◌∷◌, Option, none, some, Bool, true, false, ◌||◌, if◌then◌else◌, ◌++◌}
use jpl.Base.Sets.{contains, insert, delete}
use jpl.Event.{
  Event, StatusUpdateInfo, type_error, type_queue, type_apply, type_prune, type_inventory,
  type_status_update, Status, status_pending, status_successful, status_failed, status_skipped,
}
use jpl.Resource.Object.{
  Unstructured, ObjectMetadata, metadata_discrete, object_metadata_from_unstructured,
  metadata_is_crd,
}
use jpl.Runner.State.{RunnerState, send_event, ask, skip_wait_current_status}

abbrev pub empty_metadata : ObjectMetadata
empty_metadata = record { name = []; namespace = []; group = []; kind = [] }

-- `msg.StatusUpdateInfo.ObjectMetadata`: the empty one for an event of another type.
abbrev pub updated_metadata : Event → ObjectMetadata
updated_metadata (type_status_update i) = i.object_metadata
updated_metadata (type_error e) = empty_metadata
updated_metadata (type_queue objs) = empty_metadata
updated_metadata (type_apply i) = empty_metadata
updated_metadata (type_prune i) = empty_metadata
updated_metadata (type_inventory i) = empty_metadata

abbrev is_successful : Status → Bool
is_successful status_successful = true
is_successful status_pending = false
is_successful status_failed = false
is_successful status_skipped = false

-- A status update that says that its resource is ready.
abbrev pub says_ready : Event → Bool
says_ready (type_status_update i) = is_successful i.status
says_ready (type_error e) = false
says_ready (type_queue objs) = false
says_ready (type_apply i) = false
says_ready (type_prune i) = false
says_ready (type_inventory i) = false

-- What the loop leaves: whether a CRD became ready, the set of what is still watched, the state.
pub record Waited (R : Type 0) : Type 0 where
  pub reset_mapper : Bool
  pub watched : List ObjectMetadata
  pub state : RunnerState R

-- The objects that are polled.
poller_objects : {R : Type 0} → RunnerState R → List Unstructured → List Unstructured
poller_objects s [] = []
poller_objects s (obj ∷ objs) =
    let rest = poller_objects s objs in
    if skip_wait_current_status obj s.manager then rest else obj ∷ rest

-- `objectsToWatch`
watched_metadata : List Unstructured → List ObjectMetadata → List ObjectMetadata
watched_metadata [] set = set
watched_metadata (obj ∷ objs) set =
    watched_metadata objs (insert metadata_discrete (object_metadata_from_unstructured obj) set)

module _ {R : Type 0} where
  abbrev waited : Bool → List ObjectMetadata → RunnerState R → Waited R
  waited reset watched s = record { reset_mapper = reset; watched = watched; state = s }

  -- The body of the loop, on a message of a watched object.
  receive : Event → Waited R → Waited R
  receive msg w =
      if says_ready msg
      then waited (w.reset_mapper || metadata_is_crd (updated_metadata msg))
          (delete metadata_discrete (updated_metadata msg) w.watched) (send_event msg w.state)
      else waited w.reset_mapper w.watched (send_event msg w.state)

  -- The loop goes on while something is watched.
  unless_all_ready : (Waited R → Waited R) → List ObjectMetadata → Waited R → Waited R
  unless_all_ready next [] w = w
  unless_all_ready next (m ∷ ms) w = next w

  take_message : (Waited R → Waited R) → Event → Bool → Waited R → Waited R
  take_message next msg false w = next w
  take_message next msg true w = let w' = receive msg w in unless_all_ready next w'.watched w'

  -- The loop over the messages; with no message left the channel is closed.
  pub wait_loop : List Event → Waited R → Waited R
  wait_loop [] w = w
  wait_loop (msg ∷ msgs) w =
      take_message (wait_loop msgs) msg
        (contains metadata_discrete (updated_metadata msg) w.watched) w

  -- What follows the loop; `reset` is MaybeResetRESTMapper.
  after_loop : (R → R) → Waited R → RunnerState R
  after_loop reset w =
      if w.reset_mapper then record w.state { remote = reset w.state.remote } else w.state

  wait_for :
      (List Unstructured → R → List Event × R)
      → (R → R)
      → List Unstructured
      → RunnerState R
      → RunnerState R
  wait_for start reset [] s = s
  wait_for start reset (obj ∷ objs) s =
      let (msgs, s') = ask (start (obj ∷ objs)) s in
      after_loop reset (wait_loop msgs (waited false (watched_metadata (obj ∷ objs) []) s'))

  -- WaitTask.Run
  pub run_wait :
      (List Unstructured → R → List Event × R)
      → (R → R)
      → List Unstructured
      → RunnerState R
      → RunnerState R
  run_wait start reset objs s = wait_for start reset (poller_objects s objs) s
