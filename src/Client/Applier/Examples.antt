-- ===== src/Client/Applier/Examples.antt =====
-- A run that applies a namespace and a deployment, where the inventory holds an old deployment.
use mathlib.Core.List.Perm
use mathlib.Core.List.{Nodup, Nodup-cons, Nodup-nil, not-mem-nil}
use jpl.Base.{
  ℕ, codes, List, ◌++◌, subst, ◌==◌, [], ◌∷◌, none, some, true, false, ◌≡◌, ◌≢◌, refl, ap,
  str_discrete, ℕ_discrete,
}
use jpl.Base.Sets.{contains, not_mem_of_contains, insert, delete}
use jpl.Inventory.Manager.{new_manager}
use jpl.Remote.{Error, ok, context_ended}
use jpl.Resource.Object.{
  GroupKind, ObjectMetadata, Unstructured, object_discrete, metadata_discrete,
  object_metadata_from_unstructured,
}
use jpl.Resource.Build.Examples.{shop, web}
use jpl.Runner.Queue.{TaskSetup}
use jpl.Client.Passes.{
  Mutator, write, at_address, mutated, mutate_at, mutate_each, generate_objects, mutate_objects,
  unless_failed,
}
use jpl.Client.Passes.Kept.{addresses}
use jpl.Client.Passes.Mutated.{IsMutatedBy}
use jpl.Client.Applier.Loaded.{IsTracked}
use jpl.Client.QueueBuilder.{with_objects, with_prune_objects}
use jpl.Client.QueueBuilder.Applied.{is_applied, is_pruned}
use jpl.Client.QueueBuilder.Examples.{old, graphs, tasks, built}
use jpl.Client.Applier.{
  Applier, ApplierOptions, ready, prepare, after_load, after_generate, after_mutate, start,
  load_objects_from_inventory, load_ids, load_each, loaded_more, loaded_also, find_objects_to_prune,
  watched_ids, without_ids, in_set, new_state,
}
use jpl.Client.Applier.Given.{prepare-applies}
use jpl.Client.Applier.Pruned.{prepare-disjoint}

abbrev old_id : ObjectMetadata
old_id = record {
  name = old.name;
  namespace = old.namespace;
  group = old.gvk.group;
  kind = old.gvk.kind;
}

abbrev task_setup : TaskSetup ℕ Unstructured GroupKind
task_setup = record {
  apply = record { filters = []; info_fetcher = λ obj r. (ok obj, r); apply = λ info r. (none, r) };
  prune = record { rest_mapping = λ gk r. (ok gk, r); delete = λ mapping dry_run obj r. (none, r) };
  poll = λ objs r. ([], r);
  reset_mapper = λ r. r;
  save = λ objs dry_run r. (none, r);
  dry_run = false;
}

abbrev applier : Applier ℕ Unstructured GroupKind
applier = record {
  generators = [];
  mutators = [];
  load = λ r. (ok (old_id ∷ []), r);
  get_remote = λ id r. (ok (some old), r);
  graphs = graphs;
  tasks = λ dry_run. task_setup;
}

abbrev options : ApplierOptions
options = record { dry_run = false; disable_wait = false }

abbrev ended_early : Error
ended_early = record { text = codes "context canceled"; reason = context_ended }

prepared :
    prepare applier options (web ∷ shop ∷ []) 0
    ≡ ready tasks (new_state applier options (old ∷ []) 0)
unfolding prepare after_load after_generate after_mutate generate_objects mutate_objects
    load_objects_from_inventory load_ids load_each loaded_more loaded_also find_objects_to_prune
    watched_ids without_ids in_set unless_failed with_objects with_prune_objects contains insert
    delete metadata_discrete str_discrete ℕ_discrete object_metadata_from_unstructured start
prepared = ap (start applier options (old ∷ []) 0) built

pruned : is_pruned old tasks ≡ true
unfolding contains object_discrete str_discrete ℕ_discrete
pruned = refl

applied : is_applied web tasks ≡ true
unfolding contains object_discrete str_discrete ℕ_discrete
applied = refl

prepare-disjoint_example :
    IsTracked applier 0 old
    × (contains object_discrete old (old ∷ []) ≡ true)
    × (object_metadata_from_unstructured old ≢ object_metadata_from_unstructured web)
unfolding new_manager
prepare-disjoint_example =
    prepare-disjoint applier options (λ es. Perm.rfl) (λ m. Perm.rfl) (web ∷ shop ∷ []) 0 tasks
      (new_state applier options (old ∷ []) 0) old web prepared pruned applied

-- A deployment with an annotation that a mutator removes.
abbrev raw_web : Unstructured
raw_web = record web { annotations = (codes "draft", codes "yes") ∷ [] }

abbrev cleaner : Mutator ℕ
cleaner = record {
  can_handle_resource = λ obj. obj.address == 2;
  mutate = λ obj r. ((none, record obj { annotations = [] }), r);
}

abbrev cleaning : Applier ℕ Unstructured GroupKind
cleaning = record applier { mutators = cleaner ∷ [] }

cleaned :
    prepare cleaning options (raw_web ∷ shop ∷ []) 0
    ≡ ready tasks (new_state cleaning options (old ∷ []) 0)
unfolding prepared mutated mutate_at mutate_each write at_address
cleaned = ap (start cleaning options (old ∷ []) 0) built

two_apart : Nodup (addresses (raw_web ∷ shop ∷ []))
unfolding contains ℕ_discrete
two_apart =
    Nodup-cons.1
      (not_mem_of_contains ℕ_discrete 2 (1 ∷ []) refl, Nodup-cons.1 (not-mem-nil, Nodup-nil))

apart :
    (remote generated : List Unstructured) (r1 r2 : ℕ)
    → load_objects_from_inventory cleaning 0 ≡ (ok remote, r1)
    → generate_objects [] (raw_web ∷ shop ∷ []) [] r1 ≡ ((none, generated), r2)
    → Nodup (addresses ((raw_web ∷ shop ∷ []) ++ generated))
unfolding generate_objects
apart remote generated r1 r2 l g =
    let none_made : [] ≡ generated = cc g in
    subst (λ (l : List Unstructured). Nodup (addresses ((raw_web ∷ shop ∷ []) ++ l))) none_made
      two_apart

prepare-applies_example :
    (obj' : Unstructured) × IsMutatedBy (cleaner ∷ []) raw_web obj' × (is_applied obj' tasks ≡ true)
unfolding contains object_discrete str_discrete ℕ_discrete
prepare-applies_example =
    prepare-applies cleaning options (λ es. Perm.rfl) (λ m. Perm.rfl) (raw_web ∷ shop ∷ []) 0 tasks
      (new_state cleaning options (old ∷ []) 0) raw_web ((λ obj r. refl), tt) apart cleaned refl
