-- ===== src/Client/Applier/Given.antt =====
-- What a run applies of the objects that it is given.
use mathlib.Core.List.{Perm, Nodup, Nodup-cons}
use jpl.Base.{
  ℕ, List, [], ◌∷◌, ◌++◌, some, none, true, ◌≡◌, ◌≢◌, sym, ap, ◌∙◌, arith, subst, ◌||◌, All,
  ℕ_discrete,
}
use jpl.Base.Sets.{contains, contains-append, mem_of_contains}
use jpl.Remote.{ok}
use jpl.Resource.Object.{ObjectMetadata, Unstructured, object_discrete}
use jpl.Resource.Graph.Sorted.{IsIteration}
use jpl.Runner.State.{RunnerState}
use jpl.Runner.Queue.{Task}
use jpl.Client.QueueBuilder.{with_objects, with_prune_objects}
use jpl.Client.QueueBuilder.Applied.{is_applied, build-applied}
use jpl.Client.Passes.{at_address, generate_objects}
use jpl.Client.Passes.Kept.{addresses}
use jpl.Client.Passes.Mutated.{IsInPlace, IsMutatedBy, mutate_objects-mutates}
use jpl.Client.Applier.{
  Applier, ApplierOptions, ready, prepare, builder, queue_options, load_objects_from_inventory,
}
use jpl.Client.Applier.Pruned.{prepare-ready}

contains-addresses :
    (obj : Unstructured) (objs : List Unstructured)
    → contains object_discrete obj objs ≡ true
    → contains ℕ_discrete obj.address (addresses objs) ≡ true
unfolding contains
contains-addresses obj [] h = absurd (ground arith)
contains-addresses obj (o ∷ objs) h = elim (object_discrete obj o) [
  | yes e ↦ ground (arith, ap (λ (x : Unstructured). x.address) e)
  | no d ↦ ground (arith, contains-addresses obj objs (ground arith))
]

-- Where no address occurs twice, an object of the list is the one at its address.
at_address-contains :
    (obj : Unstructured) (objs : List Unstructured)
    → Nodup (addresses objs)
    → contains object_discrete obj objs ≡ true
    → at_address obj.address objs ≡ some obj
unfolding contains at_address
at_address-contains obj [] distinct h = absurd (cc h)
at_address-contains obj (o ∷ objs) distinct h =
    let (absent, rest) = Nodup-cons.0 distinct in
    elim (object_discrete obj o) [
      | yes e ↦
          let same : o.address ≡ obj.address = ap (λ (x : Unstructured). x.address) (sym e) in
          ground (arith, same, ap (λ (x : Unstructured). some x) (sym e))
      | no d ↦
          let there : contains object_discrete obj objs ≡ true = ground arith in
          let differs : o.address ≢ obj.address = λ e. absent (
            mem_of_contains ℕ_discrete o.address (addresses objs) (
              subst (λ x. contains ℕ_discrete x (addresses objs) ≡ true) (sym e)
                (contains-addresses obj objs there))) in
          ground (arith, differs, at_address-contains obj objs rest there)
    ]

-- What stands at an address is an object of the list.
contains-at_address :
    (p : ℕ) (objs : List Unstructured) (obj : Unstructured)
    → at_address p objs ≡ some obj
    → contains object_discrete obj objs ≡ true
unfolding contains at_address
contains-at_address p [] obj h = absurd (cc h)
contains-at_address p (o ∷ objs) obj h = elim (ℕ_discrete o.address p) [
  | yes e ↦
      let found : some o ≡ some obj = ground arith in
      let same : obj ≡ o = sym (cc found) in ground (arith, same)
  | no d ↦ ground (arith, contains-at_address p objs obj (ground arith))
]

module _ {R Info Mapping : Type 0} (a : Applier R Info Mapping) (options : ApplierOptions)
    (iteration : IsIteration a.graphs.range_edges)
    (permutes : (m : List (ObjectMetadata × Unstructured)) → Perm (a.graphs.range m) m) where
  -- Where the tasks of a run are ready, the mutators write only to the object that they are given, no
  -- two of the given and the generated objects are the same one in memory, and ranging over the edges
  -- of the graph visits each edge once and over its vertices each vertex once: each object that Run is
  -- given is applied by one of the tasks as the mutators leave it, that is, as each of them in turn
  -- writes to it if it can handle what the ones before it have made of the object.
  pub prepare-applies :
      (objs : List Unstructured) (r : R) (ts : List Task) (s : RunnerState R) (obj : Unstructured)
      → All IsInPlace a.mutators
      → ((remote generated : List Unstructured) (r1 r2 : R)
          → load_objects_from_inventory a r ≡ (ok remote, r1)
          → generate_objects a.generators objs [] r1 ≡ ((none, generated), r2)
          → Nodup (addresses (objs ++ generated)))
      → prepare a options objs r ≡ ready ts s
      → contains object_discrete obj objs ≡ true
      → (obj' : Unstructured) × IsMutatedBy a.mutators obj obj' × (is_applied obj' ts ≡ true)
  unfolding with_objects with_prune_objects
  prepare-applies objs r ts s obj in_place apart e given =
      let plan = prepare-ready a options objs r ts s e in
      let b = builder s.manager.starting_objects plan.wanted in
      let distinct =
        apart s.manager.starting_objects plan.generated plan.loaded_state plan.generated_state
          plan.loaded plan.made in
      let present : contains object_discrete obj (objs ++ plan.generated) ≡ true =
        contains-append object_discrete obj objs plan.generated
        ∙ ap (λ c. c || contains object_discrete obj plan.generated) given in
      let (obj', steps, there) =
        mutate_objects-mutates a.mutators obj.address obj (objs ++ plan.generated) plan.wanted
          plan.generated_state s.remote in_place distinct
          (at_address-contains obj (objs ++ plan.generated) distinct present) plan.written in
      (
        obj',
        steps,
        build-applied a.graphs iteration permutes b (queue_options options) ts obj' plan.built
            ∙ contains-at_address obj.address plan.wanted obj' there,
      )
