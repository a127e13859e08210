-- ===== src/Client/QueueBuilder/Applied.antt =====
-- Which objects the tasks of a queue apply and prune.
use mathlib.Core.List.{Perm, flatten, mem-cons_self}
use jpl.Base.{
  List, [], ◌∷◌, ◌++◌, Option, none, some, Bool, false, ◌≡◌, ◌∙◌, sym, refl, ap, arith, All,
  Bool-cases, inl, inr, ◌||◌,
}
use jpl.Base.Maps.{keys}
use jpl.Base.Sets.{contains, contains-append, contains_of_perm, mem_of_contains, contains_of_mem}
use jpl.Remote.{ok}
use jpl.Resource.Object.{ObjectMetadata, Unstructured, object_discrete}
use jpl.Resource.Graph.{DependencyGraph}
use jpl.Resource.Graph.Sorted.{IsIteration, sorted_resource_groups-perm}
use jpl.Resource.Build.{BuildError}
use jpl.Resource.Build.Complete.{new_dependency_graph_complete}
use jpl.Resource.Build.Vertices.{new_dependency_graph-IsClosed}
use jpl.Resource.Build.Within.Collected.{new_dependency_graph-within}
use jpl.Runner.Queue.{Task, apply_task, wait_task, prune_task, inventory_task}
use jpl.Client.QueueBuilder.{
  QueueOptions, QueueBuilder, GraphSetup, wait_tasks, group_tasks, prune_tasks, build,
  object_groups, graph_groups,
}
use jpl.Client.QueueBuilder.Groups.{queued-IsQueueOf, graph_of, object_groups-sorted}
use jpl.Client.QueueBuilder.Phases.{applies}
use jpl.Client.QueueBuilder.Pruning.{IsApplying, build-IsPhased, one_prune, to_prune}

-- Some task passes the test.
abbrev pub any_task : (Task → Bool) → List Task → Bool
any_task test [] = false
any_task test (t ∷ ts) = test t || any_task test ts

abbrev pub is_applied : Unstructured → List Task → Bool
is_applied obj ts = any_task (applies obj) ts

abbrev pub prunes : Unstructured → Task → Bool
prunes obj (prune_task objs) = contains object_discrete obj objs
prunes obj (apply_task objs) = false
prunes obj (wait_task objs) = false
prunes obj inventory_task = false

abbrev pub is_pruned : Unstructured → List Task → Bool
is_pruned obj ts = any_task (prunes obj) ts

any_task-append :
    (test : Task → Bool) (ts us : List Task)
    → any_task test (ts ++ us) ≡ (any_task test ts || any_task test us)
any_task-append test [] us = refl
any_task-append test (t ∷ ts) us = ground (arith, any_task-append test ts us)

group_tasks-applied_objects :
    (options : QueueOptions) (obj : Unstructured) (groups : List (List Unstructured))
    → is_applied obj (group_tasks options groups) ≡ contains object_discrete obj (flatten groups)
unfolding group_tasks wait_tasks contains flatten
group_tasks-applied_objects options obj [] = refl
group_tasks-applied_objects options obj (g ∷ groups) = ground (
  arith,
  group_tasks-applied_objects options obj groups,
  contains-append object_discrete obj g (flatten groups),
)

rest-not_applied :
    (options : QueueOptions) (obj : Unstructured) (objs : List Unstructured)
    → is_applied obj (prune_tasks options objs ++ (inventory_task ∷ [])) ≡ false
unfolding prune_tasks
rest-not_applied options obj [] = refl
rest-not_applied options obj (x ∷ objs) = ground arith

applying-not_pruned :
    (obj : Unstructured) (ts : List Task) → All IsApplying ts → is_pruned obj ts ≡ false
applying-not_pruned obj [] h = refl
applying-not_pruned obj (apply_task objs ∷ ts) h = applying-not_pruned obj ts h.1
applying-not_pruned obj (wait_task objs ∷ ts) h = applying-not_pruned obj ts h.1
applying-not_pruned obj (prune_task objs ∷ ts) h = absurd h.0
applying-not_pruned obj (inventory_task ∷ ts) h = absurd h.0

one_prune-pruned :
    (obj : Unstructured) (objs : List Unstructured)
    → is_pruned obj (one_prune objs ++ (inventory_task ∷ [])) ≡ contains object_discrete obj objs
unfolding contains
one_prune-pruned obj [] = refl
one_prune-pruned obj (x ∷ objs) = ground arith

-- Where Build returns tasks, they prune the objects to prune if the options ask for it, and no others.
pub build-pruned :
    (setup : GraphSetup) (b : QueueBuilder) (options : QueueOptions) (tasks : List Task)
    (obj : Unstructured)
    → build setup b options ≡ some (ok tasks)
    → is_pruned obj tasks ≡ contains object_discrete obj (to_prune options b.prune_objects)
build-pruned setup b options tasks obj e =
    let phased = build-IsPhased setup b options tasks e in
    ap (is_pruned obj) (sym phased.in_order)
    ∙ any_task-append (prunes obj) phased.applying _
    ∙ ground (
      arith,
      applying-not_pruned obj phased.applying phased.applying_only,
      one_prune-pruned obj phased.pruned,
      contains_of_perm object_discrete obj phased.all_pruned,
    )

module _ (setup : GraphSetup) (iteration : IsIteration setup.range_edges)
    (permutes : (m : List (ObjectMetadata × Unstructured)) → Perm (setup.range m) m) where
  graph_groups-graph :
      (answer : Option DependencyGraph × List BuildError) (groups : List (List Unstructured))
      → graph_groups setup answer ≡ some (ok groups)
      → (g : DependencyGraph) × (answer.0 ≡ some g)
  unfolding graph_groups
  graph_groups-graph (none, errors) groups e = absurd (cc)
  graph_groups-graph (some g, errors) groups e = (g, refl)

  vertices-objects :
      (objs : List Unstructured) (g : DependencyGraph) (obj : Unstructured)
      → (graph_of setup iteration objs).0 ≡ some g
      → contains object_discrete obj (keys g.edges) ≡ contains object_discrete obj objs
  vertices-objects objs g obj e = elim (Bool-cases (contains object_discrete obj objs)) [
    | inl c ↦
        contains_of_mem object_discrete obj (keys g.edges) (
          new_dependency_graph_complete obj setup.crd_group_kind setup.webhook_services setup.range
            objs g e (mem_of_contains object_discrete obj objs c))
        ∙ sym c
    | inr c ↦ ground (
      arith,
      new_dependency_graph-within setup.crd_group_kind setup.webhook_services setup.range permutes
          objs g obj e,
    )
  ]

  groups-objects :
      (objs : List Unstructured) (groups : List (List Unstructured)) (obj : Unstructured)
      → object_groups setup objs ≡ some (ok groups)
      → contains object_discrete obj (flatten groups) ≡ contains object_discrete obj objs
  unfolding object_groups flatten
  groups-objects [] groups obj e =
      let none_left : [] ≡ groups = cc in
      ap (λ gs. contains object_discrete obj (flatten gs)) (sym none_left)
  groups-objects (o ∷ objs) groups obj e =
      let (g, found) = graph_groups-graph (graph_of setup iteration (o ∷ objs)) groups e in
      let sorted =
        object_groups-sorted setup iteration (o ∷ objs) g groups o mem-cons_self found e in
      let (distinct, closed) =
        new_dependency_graph-IsClosed setup.crd_group_kind setup.webhook_services setup.range
          (o ∷ objs) g found in
      ap (λ gs. contains object_discrete obj (flatten gs)) (sym sorted.same)
      ∙ contains_of_perm object_discrete obj (
          sorted_resource_groups-perm setup.range_edges g iteration distinct sorted.run sorted.fine)
      ∙ vertices-objects (o ∷ objs) g obj found

  -- Where Build returns tasks, they apply each of the objects and nothing else.
  pub build-applied :
      (b : QueueBuilder) (options : QueueOptions) (tasks : List Task) (obj : Unstructured)
      → build setup b options ≡ some (ok tasks)
      → is_applied obj tasks ≡ contains object_discrete obj b.objects
  unfolding build
  build-applied b options tasks obj e =
      let queue =
        queued-IsQueueOf setup options b.prune_objects (object_groups setup b.objects) tasks e in
      ap (is_applied obj) (sym queue.made)
      ∙ any_task-append (applies obj) (group_tasks options queue.groups) _
      ∙ ground (
        arith,
        rest-not_applied options obj b.prune_objects,
        group_tasks-applied_objects options obj queue.groups,
        groups-objects b.objects queue.groups obj queue.answered,
      )
