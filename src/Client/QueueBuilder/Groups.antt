-- ===== src/Client/QueueBuilder/Groups.antt =====
-- The groups that Build makes tasks of: they are the sorted groups of the graph of its objects.
use mathlib.Core.List.{Mem, not-mem-nil}
use jpl.Base.{List, [], ◌∷◌, ◌++◌, Option, none, some, ◌≡◌, refl, sym, ◌∙◌, ap, subst}
use jpl.Remote.{Outcome, ok, err}
use jpl.Resource.Object.{Unstructured, Dependency}
use jpl.Resource.Graph.{DependencyGraph, SortedGroups, sorted_resource_groups}
use jpl.Resource.Graph.Sorted.{IsIteration}
use jpl.Resource.Build.{BuildError, new_dependency_graph}
use jpl.Resource.Build.Vertices.{new_dependency_graph-sorted}
use jpl.Runner.Queue.{Task, inventory_task}
use jpl.Client.QueueBuilder.{
  QueueOptions, GraphSetup, group_tasks, prune_tasks, queue_tasks, group_outcome, grouped,
  graph_groups, object_groups, queued,
}

-- What a queue is made of.
pub record IsQueueOf (options : QueueOptions) (prune_objects : List Unstructured)
    (answer : Option (Outcome (List (List Unstructured)))) (tasks : List Task) : Type 0 where
  pub groups : List (List Unstructured)
  pub answered : answer ≡ some (ok groups)
  pub made :
      group_tasks options groups ++ (prune_tasks options prune_objects ++ (inventory_task ∷ []))
      ≡ tasks

pub queued-IsQueueOf :
    (setup : GraphSetup) (options : QueueOptions) (prune_objects : List Unstructured)
    (answer : Option (Outcome (List (List Unstructured)))) (tasks : List Task)
    → queued setup options prune_objects answer ≡ some (ok tasks)
    → IsQueueOf options prune_objects answer tasks
unfolding queued queue_tasks
queued-IsQueueOf setup options prune_objects none tasks e = absurd (cc)
queued-IsQueueOf setup options prune_objects (some (err x)) tasks e = absurd (cc)
queued-IsQueueOf setup options prune_objects (some (ok gs)) tasks e = record {
  groups = gs;
  answered = refl;
  made = cc;
}

group_outcome-fine :
    (groups found : List (List Unstructured)) (error : Option (List Dependency))
    → group_outcome groups error ≡ ok found
    → (error ≡ none) × (groups ≡ found)
unfolding group_outcome
group_outcome-fine groups found none e = (refl, cc)
group_outcome-fine groups found (some deps) e = absurd (cc)

grouped-fine :
    (r : SortedGroups) (answer : Option SortedGroups) (groups : List (List Unstructured))
    → answer ≡ some r
    → grouped answer ≡ some (ok groups)
    → (r.error ≡ none) × (r.groups ≡ groups)
unfolding grouped
grouped-fine r none groups h e = absurd (cc)
grouped-fine r (some r') groups h e =
    subst (λ (x : SortedGroups). (x.error ≡ none) × (x.groups ≡ groups)) {x = r'} {y = r} (cc)
      (group_outcome-fine r'.groups groups r'.error (cc))

module _ (setup : GraphSetup) (iteration : IsIteration setup.range_edges)
    (objs : List Unstructured) where
  abbrev pub graph_of : Option DependencyGraph × List BuildError
  graph_of = new_dependency_graph setup.crd_group_kind setup.webhook_services setup.range objs

  -- The groups that Build makes the tasks of are the sorted groups of the graph.
  pub record IsSortedInto (g : DependencyGraph) (groups : List (List Unstructured)) : Type 0 where
    pub result : SortedGroups
    pub run : sorted_resource_groups setup.range_edges g ≡ some result
    pub fine : result.error ≡ none
    pub same : result.groups ≡ groups

  graph_groups-sorted :
      (g : DependencyGraph) (answer : Option DependencyGraph × List BuildError)
      (groups : List (List Unstructured))
      → graph_of.0 ≡ some g
      → answer.0 ≡ some g
      → graph_groups setup answer ≡ some (ok groups)
      → IsSortedInto g groups
  unfolding graph_groups
  graph_groups-sorted g (none, errors) groups e h f = absurd (cc)
  graph_groups-sorted g (some g', errors) groups e h f =
      let same : g' ≡ g = cc in
      let (r, run, outcome) =
        new_dependency_graph-sorted setup.crd_group_kind setup.webhook_services setup.range
          setup.range_edges objs g iteration e in
      let (fine, groups_same) =
        grouped-fine r (sorted_resource_groups setup.range_edges g) groups run
          (ap (λ x. grouped (sorted_resource_groups setup.range_edges x)) (sym same) ∙ f) in
      record { result = r; run = run; fine = fine; same = groups_same }

module _ (setup : GraphSetup) (iteration : IsIteration setup.range_edges) where
  pub object_groups-sorted :
      (objs : List Unstructured) (g : DependencyGraph) (groups : List (List Unstructured))
      (v : Unstructured)
      → Mem v objs
      → (graph_of setup iteration objs).0 ≡ some g
      → object_groups setup objs ≡ some (ok groups)
      → IsSortedInto setup iteration objs g groups
  unfolding object_groups
  object_groups-sorted [] g groups v m e f = absurd (not-mem-nil m)
  object_groups-sorted (obj ∷ objs) g groups v m e f =
      graph_groups-sorted setup iteration (obj ∷ objs) g (graph_of setup iteration (obj ∷ objs))
        groups e e f

  grouped-total :
      (objs : List Unstructured) (answer : Option DependencyGraph × List BuildError)
      → graph_of setup iteration objs ≡ answer
      → (groups : Outcome (List (List Unstructured))) × (graph_groups setup answer ≡ some groups)
  unfolding graph_groups grouped
  grouped-total objs (none, errors) e = (_, refl)
  grouped-total objs (some g, errors) e =
      let (r, run, outcome) =
        new_dependency_graph-sorted setup.crd_group_kind setup.webhook_services setup.range
          setup.range_edges objs g iteration (ap (λ a. a.0) e) in
      (group_outcome r.groups r.error, ap grouped run)

  pub object_groups-total :
      (objs : List Unstructured)
      → (groups : Outcome (List (List Unstructured))) × (object_groups setup objs ≡ some groups)
  unfolding object_groups
  object_groups-total [] = (_, refl)
  object_groups-total (obj ∷ objs) = grouped-total (obj ∷ objs) _ refl
