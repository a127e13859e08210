-- ===== src/Client/QueueBuilder/Pruning.antt =====
-- How a queue ends: what it prunes, and the inventory.
use mathlib.Core.List.{Perm}
use mathlib.Core.List.Perm
use mathlib.Core.List.{Pairwise}
use jpl.Base.{
  List, [], ◌∷◌, ◌++◌, some, Bool, true, false, ◌≡◌, ◌∙◌, sym, refl, ap, All, if◌then◌else◌,
  Bool-cases, ◌⊎◌, inl, inr,
}
use jpl.Base.Order.{IsStrict, IsConnected}
use jpl.Base.Sorting.{sort, sort-perm, sort-IsSorted, IsSorted}
use jpl.Remote.{ok}
use jpl.Resource.Object.{ObjectMetadata, Unstructured, object_metadata_from_unstructured}
use jpl.Resource.Less.{less, less_objects}
use jpl.Resource.Less.Order.{less-IsStrict, less-IsConnected}
use jpl.Runner.Queue.{Task, apply_task, wait_task, prune_task, inventory_task}
use jpl.Client.QueueBuilder.{
  QueueOptions, QueueBuilder, GraphSetup, wait_tasks, group_tasks, prune_tasks, after, build, waits,
  object_groups,
}
use jpl.Client.QueueBuilder.Groups.{queued-IsQueueOf}

-- A task of an apply, or of the wait for it.
abbrev pub IsApplying : Task → Type 0
IsApplying (apply_task objs) = Unit
IsApplying (wait_task objs) = Unit
IsApplying (prune_task objs) = ⊥
IsApplying inventory_task = ⊥

-- One task that prunes all of the objects, or none where there are no objects.
abbrev pub one_prune : List Unstructured → List Task
one_prune [] = []
one_prune (obj ∷ objs) = prune_task (obj ∷ objs) ∷ []

abbrev pub to_prune : QueueOptions → List Unstructured → List Unstructured
to_prune options objs = if options.prune then objs else []

-- Applies and waits, then at most one prune of all that is to prune, each resource before those that
-- come before it in the order of applies, and then the inventory.
pub record IsPhased (options : QueueOptions) (prune_objects : List Unstructured) (tasks : List Task)
    : Type 0 where
  pub applying : List Task
  pub pruned : List Unstructured
  pub in_order : applying ++ (one_prune pruned ++ (inventory_task ∷ [])) ≡ tasks
  pub applying_only : All IsApplying applying
  pub all_pruned : Perm pruned (to_prune options prune_objects)
  pub reversed : IsSorted after pruned

above : ObjectMetadata → ObjectMetadata → Bool
above a b = less b a

above-IsStrict : IsStrict above
unfolding above
above-IsStrict = record {
  irrefl = less-IsStrict.irrefl;
  trans = λ a b c p q. less-IsStrict.trans c b a q p;
}

above-IsConnected : IsConnected above
unfolding above
above-IsConnected a b p q = less-IsConnected a b q p

sort-reversed : (objs : List Unstructured) → IsSorted after (sort after objs)
unfolding above less_objects
sort-reversed objs =
    sort-IsSorted object_metadata_from_unstructured above above-IsStrict above-IsConnected objs

one_prune_of :
    (obj : Unstructured) (objs pruned : List Unstructured)
    → Perm pruned (obj ∷ objs)
    → one_prune pruned ≡ prune_task pruned ∷ []
one_prune_of obj objs [] p = absurd (cc (Perm.nil-eq p))
one_prune_of obj objs (x ∷ pruned) p = refl

prune_tasks-pruned :
    (options : QueueOptions) (objs : List Unstructured)
    → (pruned : List Unstructured) × (prune_tasks options objs ≡ one_prune pruned)
      × Perm pruned (to_prune options objs)
      × IsSorted after pruned
unfolding prune_tasks
prune_tasks-pruned options [] = ([], refl, nothing (Bool-cases options.prune), Pairwise.nil)
  where
    nothing : (options.prune ≡ true) ⊎ (options.prune ≡ false) → Perm [] (to_prune options [])
    nothing (inl e) = rw e Perm.rfl
    nothing (inr e) = rw e Perm.rfl
prune_tasks-pruned options (obj ∷ objs) = elim (Bool-cases options.prune) [
  | inl e ↦
      let sorted = sort after (obj ∷ objs) in
      rw e (
        sorted,
        sym (one_prune_of obj objs sorted (sort-perm after (obj ∷ objs))),
        sort-perm after (obj ∷ objs),
        sort-reversed (obj ∷ objs),
      )
  | inr e ↦ rw e ([], refl, Perm.rfl, Pairwise.nil)
]

append-IsApplying :
    (ts us : List Task) → All IsApplying ts → All IsApplying us → All IsApplying (ts ++ us)
append-IsApplying [] us h k = k
append-IsApplying (t ∷ ts) us h k = (h.0, append-IsApplying ts us h.1 k)

group_tasks-IsApplying :
    (options : QueueOptions) (groups : List (List Unstructured))
    → All IsApplying (group_tasks options groups)
unfolding group_tasks wait_tasks
group_tasks-IsApplying options [] = tt
group_tasks-IsApplying options (group ∷ groups) =
    let later = group_tasks-IsApplying options groups in
    (tt, append-IsApplying (wait_tasks options group) (group_tasks options groups) waiting later)
  where
    waiting : All IsApplying (wait_tasks options group)
    waiting = elim (Bool-cases (waits options)) [ inl e ↦ rw e (tt, tt) | inr e ↦ rw e tt ]

-- Where Build returns tasks, they are applies and waits, then at most one prune, of all the objects to
-- prune if the options ask for it, in the reverse of the order of resources, and at the end the
-- inventory.
pub build-IsPhased :
    (setup : GraphSetup) (b : QueueBuilder) (options : QueueOptions) (tasks : List Task)
    → build setup b options ≡ some (ok tasks)
    → IsPhased options b.prune_objects tasks
unfolding build
build-IsPhased setup b options tasks e =
    let queue =
      queued-IsQueueOf setup options b.prune_objects (object_groups setup b.objects) tasks e in
    let (pruned, shape, perm, reversed) = prune_tasks-pruned options b.prune_objects in
    record {
      applying = group_tasks options queue.groups;
      pruned = pruned;
      in_order =
          ap (λ ts. group_tasks options queue.groups ++ (ts ++ (inventory_task ∷ []))) (sym shape)
          ∙ queue.made;
      applying_only = group_tasks-IsApplying options queue.groups;
      all_pruned = perm;
      reversed = reversed;
    }
