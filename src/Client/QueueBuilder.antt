-- ===== src/Client/QueueBuilder.antt =====
-- pkg/client/queuebuilder.go: QueueBuilder.Build, the tasks of a run in the order of the queue.
pub mod Groups
pub mod Phases
pub mod Pruning
pub mod Applied
pub mod Examples
use jpl.Base.{
  Str, List, [], ◌∷◌, ◌++◌, Option, none, some, Bool, true, false, not, ◌&&◌, if◌then◌else◌,
}
use jpl.Base.Sorting.{sort}
use jpl.Remote.{Error, Outcome, ok, err}
use jpl.Resource.Object.{GroupKind, ObjectMetadata, Unstructured, Dependency}
use jpl.Resource.Less.{less_objects}
use jpl.Resource.Graph.{Edges, DependencyGraph, SortedGroups, sorted_resource_groups}
use jpl.Resource.Build.{ServiceReference, BuildError, new_dependency_graph}
use jpl.Resource.Errors.{cyclic_dependency_error, aggregate_error}
use jpl.Runner.Queue.{Task, apply_task, wait_task, prune_task, inventory_task}

-- The options that decide about the tasks.
pub record QueueOptions : Type 0 where
  pub wait : Bool
  pub dry_run : Bool
  pub prune : Bool

pub record QueueBuilder : Type 0 where
  pub objects : List Unstructured
  pub prune_objects : List Unstructured

-- What the graph is made with: the conversions of apimachinery, and the orders in which Go ranges over
-- the two maps.
pub record GraphSetup : Type 0 where
  pub crd_group_kind : Unstructured → Option GroupKind
  pub webhook_services : Unstructured → List (Option ServiceReference)
  pub range : List (ObjectMetadata × Unstructured) → List (ObjectMetadata × Unstructured)
  pub range_edges : Edges → Edges
  pub aggregate : List Str → Str

-- WithObjects
unfoldable pub with_objects : List Unstructured → QueueBuilder → QueueBuilder
with_objects objs b = record b { objects = objs }

-- WithPruneObjects
unfoldable pub with_prune_objects : List Unstructured → QueueBuilder → QueueBuilder
with_prune_objects objs b = record b { prune_objects = objs }

-- sort.Reverse of SortableObjects
abbrev pub after : Unstructured → Unstructured → Bool
after a b = less_objects b a

module _ (options : QueueOptions) where
  abbrev waits : Bool
  waits = not options.dry_run && options.wait

  wait_tasks : List Unstructured → List Task
  wait_tasks group = if waits then wait_task group ∷ [] else []

  -- The loop over the groups.
  pub group_tasks : List (List Unstructured) → List Task
  group_tasks [] = []
  group_tasks (group ∷ groups) = apply_task group ∷ (wait_tasks group ++ group_tasks groups)

  pub prune_tasks : List Unstructured → List Task
  prune_tasks [] = []
  prune_tasks (obj ∷ objs) = if options.prune then prune_task (sort after (obj ∷ objs)) ∷ [] else []

  queue_tasks : List Unstructured → Outcome (List (List Unstructured)) → Outcome (List Task)
  queue_tasks prune_objects (err e) = err e
  queue_tasks prune_objects (ok groups) =
      ok (group_tasks groups ++ (prune_tasks prune_objects ++ (inventory_task ∷ [])))

group_outcome :
    List (List Unstructured) → Option (List Dependency) → Outcome (List (List Unstructured))
group_outcome groups none = ok groups
group_outcome groups (some deps) = err (cyclic_dependency_error deps)

grouped : Option SortedGroups → Option (Outcome (List (List Unstructured)))
grouped none = none
grouped (some r) = some (group_outcome r.groups r.error)

module _ (setup : GraphSetup) where
  graph_groups :
      Option DependencyGraph × List BuildError → Option (Outcome (List (List Unstructured)))
  graph_groups (none, errors) = some (err (aggregate_error setup.aggregate errors))
  graph_groups (some g, errors) = grouped (sorted_resource_groups setup.range_edges g)

  -- The groups of the objects; without objects there is no graph.
  pub object_groups : List Unstructured → Option (Outcome (List (List Unstructured)))
  object_groups [] = some (ok [])
  object_groups (obj ∷ objs) =
      graph_groups
        (new_dependency_graph setup.crd_group_kind setup.webhook_services setup.range (obj ∷ objs))

  pub queued :
      QueueOptions
      → List Unstructured
      → Option (Outcome (List (List Unstructured)))
      → Option (Outcome (List Task))
  queued options prune_objects none = none
  queued options prune_objects (some groups) = some (queue_tasks options prune_objects groups)

  -- QueueBuilder.Build: `none` would be a graph whose groups do not end.
  pub build : QueueBuilder → QueueOptions → Option (Outcome (List Task))
  build b options = queued options b.prune_objects (object_groups b.objects)
