-- ===== src/Client/QueueBuilder/Phases.antt =====
-- In which order the tasks of a queue come, and that Build always returns.
use mathlib.Core.List.{Mem}
use jpl.Base.{
  ℕ, suc, ◌<◌, List, [], ◌∷◌, ◌++◌, some, Bool, true, false, ◌≡◌, ap, subst, arith, length,
}
use mathlib.Core.List.Perm
use jpl.Base.Sets.{contains}
use jpl.Remote.{Outcome, ok}
use jpl.Resource.Object.{Unstructured, object_discrete}
use jpl.Resource.Graph.{DependencyGraph, targets}
use jpl.Resource.Graph.Sorted.{
  IsIteration, sorted_resource_groups_order, sorted_resource_groups-perm,
}
use jpl.Resource.Graph.Topology.{layer_of}
use jpl.Resource.Build.{new_dependency_graph}
use jpl.Resource.Build.Complete.{new_dependency_graph_complete}
use jpl.Resource.Build.Vertices.{new_dependency_graph-IsClosed}
use jpl.Runner.Queue.{Task, apply_task, wait_task, prune_task, inventory_task}
use jpl.Client.QueueBuilder.{
  QueueOptions, QueueBuilder, GraphSetup, waits, wait_tasks, group_tasks, queue_tasks,
  object_groups, queued, build,
}
use jpl.Client.QueueBuilder.Groups.{
  queued-IsQueueOf, IsSortedInto, object_groups-sorted, object_groups-total, graph_of,
}

abbrev pub applies : Unstructured → Task → Bool
applies obj (apply_task objs) = contains object_discrete obj objs
applies obj (wait_task objs) = false
applies obj (prune_task objs) = false
applies obj inventory_task = false

abbrev pub waits_for : Unstructured → Task → Bool
waits_for obj (wait_task objs) = contains object_discrete obj objs
waits_for obj (apply_task objs) = false
waits_for obj (prune_task objs) = false
waits_for obj inventory_task = false

-- The number of tasks before the first one that passes the test.
abbrev pub index_of : (Task → Bool) → List Task → ℕ
index_of test [] = 0
index_of test (t ∷ ts) = elim (test t) [ true ↦ 0 | false ↦ suc (index_of test ts) ]

-- The applies come in the order of the groups, and where the run waits, a wait for each group comes
-- between.
pub record IsBetween (options : QueueOptions) (w v : Unstructured) (tasks : List Task)
    : Type 0 where
  pub applied_before : index_of (applies w) tasks < index_of (applies v) tasks
  pub applied : index_of (applies v) tasks < length tasks
  pub waited_after :
      waits options ≡ true → index_of (applies w) tasks < index_of (waits_for w) tasks
  pub waited_before :
      waits options ≡ true → index_of (waits_for w) tasks < index_of (applies v) tasks

module _ (options : QueueOptions) (w v : Unstructured) (rest : List Task) where
  group_tasks-applied_before :
      (groups : List (List Unstructured))
      → layer_of w groups < layer_of v groups
      → index_of (applies w) (group_tasks options groups ++ rest)
        < index_of (applies v) (group_tasks options groups ++ rest)
  unfolding group_tasks wait_tasks layer_of
  group_tasks-applied_before [] h = absurd (omega arith)
  group_tasks-applied_before (g ∷ groups) h = ground (arith, group_tasks-applied_before groups)

  group_tasks-applied :
      (groups : List (List Unstructured))
      → layer_of v groups < length groups
      → index_of (applies v) (group_tasks options groups ++ rest)
        < length (group_tasks options groups ++ rest)
  unfolding group_tasks wait_tasks layer_of
  group_tasks-applied [] h = absurd (omega arith)
  group_tasks-applied (g ∷ groups) h = ground (arith, group_tasks-applied groups)

  group_tasks-waited_after :
      (groups : List (List Unstructured))
      → layer_of w groups < length groups
      → waits options ≡ true
      → index_of (applies w) (group_tasks options groups ++ rest)
        < index_of (waits_for w) (group_tasks options groups ++ rest)
  unfolding group_tasks wait_tasks layer_of
  group_tasks-waited_after [] h waiting = absurd (omega arith)
  group_tasks-waited_after (g ∷ groups) h waiting = ground (arith, group_tasks-waited_after groups)

  group_tasks-waited_before :
      (groups : List (List Unstructured))
      → layer_of w groups < layer_of v groups
      → waits options ≡ true
      → index_of (waits_for w) (group_tasks options groups ++ rest)
        < index_of (applies v) (group_tasks options groups ++ rest)
  unfolding group_tasks wait_tasks layer_of
  group_tasks-waited_before [] h waiting = absurd (omega arith)
  group_tasks-waited_before (g ∷ groups) h waiting =
      ground (arith, group_tasks-waited_before groups)

module _ (setup : GraphSetup) (iteration : IsIteration setup.range_edges) where
  groups-IsBetween :
      (options : QueueOptions) (objs : List Unstructured) (g : DependencyGraph)
      (groups : List (List Unstructured)) (rest : List Task) (v w : Unstructured)
      → Mem v objs
      → Mem w (targets v g.edges)
      → (graph_of setup iteration objs).0 ≡ some g
      → IsSortedInto setup iteration objs g groups
      → IsBetween options w v (group_tasks options groups ++ rest)
  groups-IsBetween options objs g groups rest v w m t e sorted =
      let (distinct, closed) =
        new_dependency_graph-IsClosed setup.crd_group_kind setup.webhook_services setup.range objs g
          e in
      let placed =
        Perm.subset
          (Perm.symm (
            sorted_resource_groups-perm setup.range_edges g iteration distinct sorted.run
              sorted.fine))
          v
          (new_dependency_graph_complete v setup.crd_group_kind setup.webhook_services setup.range
            objs g e m) in
      let (before, inside) =
        subst (λ gs. (layer_of w gs < layer_of v gs) × (layer_of v gs < length gs)) sorted.same
          (sorted_resource_groups_order setup.range_edges g v w iteration distinct sorted.run placed
            t) in
      record {
        applied_before = group_tasks-applied_before options w v rest groups before;
        applied = group_tasks-applied options w v rest groups inside;
        waited_after = group_tasks-waited_after options w v rest groups (omega arith);
        waited_before = group_tasks-waited_before options w v rest groups before;
      }

  -- Where Build returns tasks and an object depends on another one in the graph of the objects, the
  -- tasks apply the other one first, and where the run waits and is not dry they also wait for it
  -- before the object is applied.
  pub build-order :
      (b : QueueBuilder) (options : QueueOptions) (g : DependencyGraph) (tasks : List Task)
      (v w : Unstructured)
      → (new_dependency_graph setup.crd_group_kind setup.webhook_services setup.range b.objects).0
        ≡ some g
      → build setup b options ≡ some (ok tasks)
      → Mem v b.objects
      → Mem w (targets v g.edges)
      → IsBetween options w v tasks
  unfolding build
  build-order b options g tasks v w e f m t =
      let queue =
        queued-IsQueueOf setup options b.prune_objects (object_groups setup b.objects) tasks f in
      subst (IsBetween options w v) queue.made (
        groups-IsBetween options b.objects g queue.groups _ v w m t e
          (object_groups-sorted setup iteration b.objects g queue.groups v m e queue.answered))

  -- Build always returns, tasks or an error.
  pub build-total :
      (b : QueueBuilder) (options : QueueOptions)
      → (answer : Outcome (List Task)) × (build setup b options ≡ some answer)
  unfolding build queued
  build-total b options =
      let (groups, e) = object_groups-total setup iteration b.objects in
      (queue_tasks options b.prune_objects groups, ap (queued setup options b.prune_objects) e)
