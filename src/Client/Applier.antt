-- ===== src/Client/Applier.antt =====
-- pkg/client/applier.go: Applier.Run. The store of the inventory and the getter of remote objects are
-- parameters, like the generators and the mutators.
pub mod Loaded
pub mod Pruned
pub mod Stages
pub mod Saving
pub mod Given
mod Examples
use jpl.Base.{
  ℕ, Str, ◌≡◌, List, [], ◌∷◌, ◌++◌, Option, none, some, Bool, true, false, not, if◌then◌else◌, map,
  ◌==◌,
}
use jpl.Base.Sets.{contains, insert, delete}
use jpl.Remote.{Error, Outcome, ok, err, wrap}
use jpl.Event.{Event, type_error}
use jpl.Inventory.Manager.{new_manager}
use jpl.Resource.Object.{
  ObjectMetadata, Unstructured, metadata_discrete, object_metadata_from_unstructured,
}
use jpl.Runner.State.{RunnerState}
use jpl.Runner.Queue.{Task, TaskSetup, Runs}
use jpl.Client.Passes.{Generator, Mutator, generate_objects, mutate_objects}
use jpl.Client.QueueBuilder.{
  QueueOptions, QueueBuilder, GraphSetup, with_objects, with_prune_objects, build,
}

pub record ApplierOptions : Type 0 where
  pub dry_run : Bool
  pub disable_wait : Bool

-- What an applier holds, with what its tasks are set up with.
pub record Applier (R Info Mapping : Type 0) : Type 0 where
  pub generators : List (Generator R)
  pub mutators : List (Mutator R)
  pub load : R → Outcome (List ObjectMetadata) × R
  pub get_remote : ObjectMetadata → R → Outcome (Option Unstructured) × R
  pub graphs : GraphSetup
  pub tasks : Bool → TaskSetup R Info Mapping

-- handleError
pub handle_error : Error → List Event → List Event
handle_error e events = events ++ (type_error e ∷ [])

watched_ids : List Unstructured → List ObjectMetadata → List ObjectMetadata
watched_ids [] set = set
watched_ids (obj ∷ objs) set =
    watched_ids objs (insert metadata_discrete (object_metadata_from_unstructured obj) set)

without_ids : List Unstructured → List ObjectMetadata → List ObjectMetadata
without_ids [] set = set
without_ids (obj ∷ objs) set =
    without_ids objs (delete metadata_discrete (object_metadata_from_unstructured obj) set)

in_set : List ObjectMetadata → List Unstructured → List Unstructured
in_set set [] = []
in_set set (obj ∷ objs) =
    let rest = in_set set objs in
    if contains metadata_discrete (object_metadata_from_unstructured obj) set
    then obj ∷ rest
    else rest

-- findObjectsToPrune
pub find_objects_to_prune : List Unstructured → List Unstructured → List Unstructured
find_objects_to_prune first second = in_set (without_ids second (watched_ids first [])) first

module _ {R Info Mapping : Type 0} (a : Applier R Info Mapping) where
  -- With an object that was found.
  loaded_also : Unstructured → Outcome (List Unstructured) × R → Outcome (List Unstructured) × R
  loaded_also obj (err e, r) = (err e, r)
  loaded_also obj (ok objs, r) = (ok (obj ∷ objs), r)

  -- After the getter.
  loaded_more :
      (R → Outcome (List Unstructured) × R)
      → Outcome (Option Unstructured) × R
      → Outcome (List Unstructured) × R
  loaded_more next (err e, r) = (err e, r)
  loaded_more next (ok none, r) = next r
  loaded_more next (ok (some obj), r) = loaded_also obj (next r)

  load_each : List ObjectMetadata → R → Outcome (List Unstructured) × R
  load_each [] r = (ok [], r)
  load_each (id ∷ ids) r = loaded_more (load_each ids) (a.get_remote id r)

  load_ids : Outcome (List ObjectMetadata) × R → Outcome (List Unstructured) × R
  load_ids (err e, r) = (err e, r)
  load_ids (ok ids, r) = load_each ids r

  -- loadObjectsFromInventory, over the set in the order in which Go ranges over it.
  pub load_objects_from_inventory : R → Outcome (List Unstructured) × R
  load_objects_from_inventory r = load_ids (a.load r)

-- What precedes the run of the queue: it has stopped with the events that were sent, or the queue and
-- the state of the run are ready. `unfinished` would be a graph whose groups do not end.
pub data Prepared (R : Type 0) : Type 0 where
  stopped : List Event → R → Prepared R
  ready : List Task → RunnerState R → Prepared R
  unfinished : Prepared R

abbrev pub queue_options : ApplierOptions → QueueOptions
queue_options options = record {
  wait = not options.disable_wait;
  dry_run = options.dry_run;
  prune = true;
}

abbrev pub builder : List Unstructured → List Unstructured → QueueBuilder
builder remote_objects objs =
    with_prune_objects (find_objects_to_prune remote_objects objs)
      (with_objects objs (record { objects = []; prune_objects = [] }))

module _ {R Info Mapping : Type 0} (a : Applier R Info Mapping) (options : ApplierOptions) where
  abbrev pub new_state : List Unstructured → R → RunnerState R
  new_state remote_objects r = record {
    events = [];
    manager = new_manager remote_objects;
    remote = r;
  }

  -- After Build.
  start : List Unstructured → R → Option (Outcome (List Task)) → Prepared R
  start remote_objects r none = unfinished
  start remote_objects r (some (err e)) = stopped (handle_error e []) r
  start remote_objects r (some (ok ts)) = ready ts (new_state remote_objects r)

  -- After mutateObjects.
  after_mutate : List Unstructured → (Option Error × List Unstructured) × R → Prepared R
  after_mutate remote_objects ((some e, objs), r) = stopped (handle_error e []) r
  after_mutate remote_objects ((none, objs), r) =
      start remote_objects r (build a.graphs (builder remote_objects objs) (queue_options options))

  -- After generateObjects.
  after_generate :
      List Unstructured → List Unstructured → (Option Error × List Unstructured) × R → Prepared R
  after_generate remote_objects objs ((some e, generated), r) = stopped (handle_error e []) r
  after_generate remote_objects objs ((none, generated), r) =
      after_mutate remote_objects (mutate_objects a.mutators (objs ++ generated) r)

  -- After loadObjectsFromInventory.
  after_load : List Unstructured → Outcome (List Unstructured) × R → Prepared R
  after_load objs (err e, r) = stopped (handle_error e []) r
  after_load objs (ok remote_objects, r) =
      after_generate remote_objects objs (generate_objects a.generators objs [] r)

  pub prepare : List Unstructured → R → Prepared R
  prepare objs r = after_load objs (load_objects_from_inventory a r)

  pub add_error : Option Error → List Event → List Event
  add_error none events = events
  add_error (some e) events = handle_error e events

  -- Run: the events that it sends and the state of the remote side after it.
  pub data IsRun (objs : List Unstructured) (r : R) : List Event → R → Type 0 where
    stops :
        (events : List Event) (r' : R) → prepare objs r ≡ stopped events r' → IsRun objs r events r'
    runs :
        (ts : List Task) (s : RunnerState R) {error : Option Error} {s' : RunnerState R}
        {left : List Task}
        → prepare objs r ≡ ready ts s
        → Runs (a.tasks options.dry_run) ts s error s' left
        → IsRun objs r (add_error error s'.events) s'.remote
