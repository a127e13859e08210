-- ===== src/Client/QueueBuilder/Examples.antt =====
-- The queue of a namespace and a deployment in it, with an old deployment to prune.
use mathlib.Core.List.{mem-cons_self}
use mathlib.Core.List.Perm
use jpl.Base.{codes, List, [], ◌∷◌, some, true, false, ◌≡◌, refl, ap, ◌∙◌, str_discrete, ℕ_discrete}
use jpl.Base.Maps.{get}
use jpl.Base.Sets.{contains}
use jpl.Base.Sorting.{sort}
use jpl.Remote.{ok}
use jpl.Resource.Object.{
  Unstructured, object_discrete, group_kind_discrete, metadata_discrete,
  object_metadata_from_unstructured,
}
use jpl.Base.Int.{ℤ_discrete}
use jpl.Resource.Less.{less, less_gk, sort_index}
use jpl.Resource.Graph.{sorted_resource_groups, targets}
use jpl.Resource.Build.Examples.{
  shop, web, no_crd, no_service, as_listed, edges_as_listed, graph, whole,
}
use jpl.Runner.Queue.{Task, apply_task, wait_task, prune_task, inventory_task}
use jpl.Client.QueueBuilder.{
  GraphSetup, QueueBuilder, QueueOptions, build, queued, object_groups, graph_groups, grouped,
  group_outcome, queue_tasks, group_tasks, wait_tasks, prune_tasks,
}
use jpl.Resource.Graph.Sorted.{IsIteration}
use jpl.Client.QueueBuilder.Phases.{IsBetween, build-order}
use jpl.Client.QueueBuilder.Pruning.{IsPhased, build-IsPhased}
use jpl.Client.QueueBuilder.Applied.{is_applied, build-applied}

abbrev pub old : Unstructured
old = record web { address = 3; name = codes "old" }

abbrev pub graphs : GraphSetup
graphs = record {
  crd_group_kind = no_crd;
  webhook_services = no_service;
  range = as_listed;
  range_edges = edges_as_listed;
  aggregate = λ texts. [];
}

abbrev pub wanted : QueueBuilder
wanted = record { objects = web ∷ shop ∷ []; prune_objects = old ∷ [] }

abbrev pub options : QueueOptions
options = record { wait = true; dry_run = false; prune = true }

abbrev pub tasks : List Task
tasks =
    apply_task (shop ∷ [])
    ∷ wait_task (shop ∷ [])
    ∷ apply_task (web ∷ [])
    ∷ wait_task (web ∷ [])
    ∷ prune_task (old ∷ [])
    ∷ inventory_task
    ∷ []

sorted : graph_groups graphs (some graph, []) ≡ some (ok ((shop ∷ []) ∷ (web ∷ []) ∷ []))
unfolding graph_groups grouped group_outcome sorted_resource_groups object_discrete
    object_metadata_from_unstructured less less_gk sort_index ℤ_discrete group_kind_discrete
    metadata_discrete str_discrete ℕ_discrete
sorted = refl

pub built : build graphs wanted options ≡ some (ok tasks)
unfolding build queued object_groups queue_tasks group_tasks wait_tasks prune_tasks sort
built = ap (queued graphs options (old ∷ [])) (ap (graph_groups graphs) whole ∙ sorted)

iteration : IsIteration graphs.range_edges
iteration = λ es. Perm.rfl

build-order_example : IsBetween options shop web tasks
unfolding targets get object_discrete
build-order_example =
    build-order graphs iteration wanted options graph tasks web shop (ap (λ a. a.0) whole) built
      mem-cons_self mem-cons_self

build-IsPhased_example : IsPhased options (old ∷ []) tasks
build-IsPhased_example = build-IsPhased graphs wanted options tasks built

build-applied_example : is_applied web tasks ≡ contains object_discrete web (web ∷ shop ∷ [])
build-applied_example =
    build-applied graphs iteration (λ m. Perm.rfl) wanted options tasks web built
