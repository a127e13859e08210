-- ===== src/Client/Applier/Pruned.antt =====
-- What a run prunes, and what it says where it stops before its tasks.
use mathlib.Core.List.{Perm}
use jpl.Base.{
  List, [], ◌∷◌, ◌++◌, Option, none, some, Bool, true, false, ◌≡◌, ◌≢◌, ◌∙◌, sym, refl, ap, subst,
  arith, not, ◌&&◌, ◌||◌,
}
use jpl.Base.Sets.{contains, contains-insert, contains-delete, is_same}
use jpl.Inventory.Manager.{new_manager}
use jpl.Remote.{Error, Outcome, ok, err}
use jpl.Resource.Object.{
  ObjectMetadata, Unstructured, object_discrete, metadata_discrete,
  object_metadata_from_unstructured,
}
use jpl.Resource.Graph.Sorted.{IsIteration}
use jpl.Runner.Queue.{Task}
use jpl.Runner.State.{RunnerState}
use jpl.Client.QueueBuilder.{with_objects, with_prune_objects, build}
use jpl.Client.QueueBuilder.Applied.{is_applied, is_pruned, build-applied, build-pruned}
use jpl.Client.Passes.{generate_objects, mutate_objects}
use jpl.Client.Applier.Loaded.{IsTracked, load-IsTracked}
use jpl.Client.Applier.{
  Applier, ApplierOptions, ready, watched_ids, without_ids, in_set, find_objects_to_prune,
  new_state, start, after_mutate, after_generate, after_load, prepare, builder, queue_options,
  load_objects_from_inventory,
}

-- One of the objects has the identity.
abbrev has_id : ObjectMetadata → List Unstructured → Bool
has_id id [] = false
has_id id (obj ∷ objs) =
    is_same metadata_discrete (object_metadata_from_unstructured obj) id || has_id id objs

watched_ids-contains :
    (id : ObjectMetadata) (objs : List Unstructured) (set : List ObjectMetadata)
    → contains metadata_discrete id (watched_ids objs set)
      ≡ (contains metadata_discrete id set || has_id id objs)
unfolding watched_ids contains
watched_ids-contains id [] set = ground arith
watched_ids-contains id (obj ∷ objs) set =
    watched_ids-contains id objs _
    ∙ ground
        (arith, contains-insert metadata_discrete (object_metadata_from_unstructured obj) id set)

without_ids-contains :
    (id : ObjectMetadata) (objs : List Unstructured) (set : List ObjectMetadata)
    → contains metadata_discrete id (without_ids objs set)
      ≡ (contains metadata_discrete id set && not (has_id id objs))
unfolding without_ids
without_ids-contains id [] set = ground arith
without_ids-contains id (obj ∷ objs) set =
    without_ids-contains id objs _
    ∙ ground
        (arith, contains-delete metadata_discrete (object_metadata_from_unstructured obj) id set)

in_set-contains :
    (set : List ObjectMetadata) (obj : Unstructured) (objs : List Unstructured)
    → contains object_discrete obj (in_set set objs) ≡ (
        contains object_discrete obj objs
        && contains metadata_discrete (object_metadata_from_unstructured obj) set)
unfolding in_set contains
in_set-contains set obj [] = refl
in_set-contains set obj (x ∷ objs) = ground (arith, in_set-contains set obj objs)

has_id-contains :
    (obj : Unstructured) (objs : List Unstructured)
    → contains object_discrete obj objs ≡ true
    → has_id (object_metadata_from_unstructured obj) objs ≡ true
unfolding contains
has_id-contains obj [] h = absurd (cc)
has_id-contains obj (x ∷ objs) h = ground (arith, has_id-contains obj objs)

-- findObjectsToPrune keeps those of the first objects of which the identity is not among those of the
-- second ones.
pub find_objects_to_prune-contains :
    (obj : Unstructured) (first second : List Unstructured)
    → contains object_discrete obj (find_objects_to_prune first second) ≡ (
        contains object_discrete obj first
        && not (has_id (object_metadata_from_unstructured obj) second))
unfolding find_objects_to_prune contains
find_objects_to_prune-contains obj first second =
    let id = object_metadata_from_unstructured obj in
    in_set-contains (without_ids second (watched_ids first [])) obj first
    ∙ ground (
      arith,
      without_ids-contains id second (watched_ids first []),
      watched_ids-contains id first [],
      has_id-contains obj first,
    )

module _ {R Info Mapping : Type 0} (a : Applier R Info Mapping) (options : ApplierOptions) where
  -- The tasks that are ready are those that Build makes of what is wanted and of what was loaded; what
  -- is wanted is what was given and what was generated, after the mutators.
  pub record IsPlan (objs : List Unstructured) (r : R) (ts : List Task) (s : RunnerState R)
      : Type 0 where
    pub loaded_state : R
    pub loaded : load_objects_from_inventory a r ≡ (ok s.manager.starting_objects, loaded_state)
    pub generated : List Unstructured
    pub generated_state : R
    pub made :
        generate_objects a.generators objs [] loaded_state ≡ ((none, generated), generated_state)
    pub wanted : List Unstructured
    pub written :
        mutate_objects a.mutators (objs ++ generated) generated_state ≡ ((none, wanted), s.remote)
    pub built :
        build a.graphs (builder s.manager.starting_objects wanted) (queue_options options)
        ≡ some (ok ts)

  -- What the tasks that are ready were made of.
  start-ready :
      (remote_objects : List Unstructured) (r : R) (answer : Option (Outcome (List Task)))
      (ts : List Task) (s : RunnerState R)
      → start a options remote_objects r answer ≡ ready ts s
      → (answer ≡ some (ok ts)) × (remote_objects ≡ s.manager.starting_objects) × (r ≡ s.remote)
  unfolding start new_manager
  start-ready remote_objects r none ts s e = absurd (cc)
  start-ready remote_objects r (some (err x)) ts s e = absurd (cc)
  start-ready remote_objects r (some (ok us)) ts s e =
      let same : new_state a options remote_objects r ≡ s = cc in
      (
        ap (λ x. some (ok x)) (cc),
        ap (λ (x : RunnerState R). x.manager.starting_objects) same,
        ap (λ (x : RunnerState R). x.remote) same,
      )

  after_mutate-ready :
      (objs remote_objects generated : List Unstructured) (r r1 r2 : R)
      (answer : (Option Error × List Unstructured) × R) (ts : List Task) (s : RunnerState R)
      → load_objects_from_inventory a r ≡ (ok remote_objects, r1)
      → generate_objects a.generators objs [] r1 ≡ ((none, generated), r2)
      → mutate_objects a.mutators (objs ++ generated) r2 ≡ answer
      → after_mutate a options remote_objects answer ≡ ready ts s
      → IsPlan objs r ts s
  unfolding after_mutate
  after_mutate-ready objs remote_objects generated r r1 r2 ((some x, wanted), r3) ts s l g m e =
      absurd (cc e)
  after_mutate-ready objs remote_objects generated r r1 r2 ((none, wanted), r3) ts s l g m e =
      let (built, same, left) = start-ready remote_objects r3 _ ts s e in
      record {
        loaded_state = r1;
        loaded = l ∙ ap (λ os. (ok os, r1)) same;
        generated = generated;
        generated_state = r2;
        made = g;
        wanted = wanted;
        written = m ∙ ap (λ x. ((none, wanted), x)) left;
        built =
            ap (λ os. build a.graphs (builder os wanted) (queue_options options)) (sym same)
            ∙ built;
      }

  after_generate-ready :
      (objs remote_objects : List Unstructured) (r r1 : R)
      (answer : (Option Error × List Unstructured) × R) (ts : List Task) (s : RunnerState R)
      → load_objects_from_inventory a r ≡ (ok remote_objects, r1)
      → generate_objects a.generators objs [] r1 ≡ answer
      → after_generate a options remote_objects objs answer ≡ ready ts s
      → IsPlan objs r ts s
  unfolding after_generate
  after_generate-ready objs remote_objects r r1 ((some x, generated), r2) ts s l g e = absurd (cc e)
  after_generate-ready objs remote_objects r r1 ((none, generated), r2) ts s l g e =
      after_mutate-ready objs remote_objects generated r r1 r2 _ ts s l g refl e

  after_load-ready :
      (objs : List Unstructured) (r : R) (answer : Outcome (List Unstructured) × R) (ts : List Task)
      (s : RunnerState R)
      → load_objects_from_inventory a r ≡ answer
      → after_load a options objs answer ≡ ready ts s
      → IsPlan objs r ts s
  unfolding after_load
  after_load-ready objs r (err x, r1) ts s l e = absurd (cc e)
  after_load-ready objs r (ok remote_objects, r1) ts s l e =
      after_generate-ready objs remote_objects r r1 _ ts s l refl e

  pub prepare-ready :
      (objs : List Unstructured) (r : R) (ts : List Task) (s : RunnerState R)
      → prepare a options objs r ≡ ready ts s
      → IsPlan objs r ts s
  unfolding prepare
  prepare-ready objs r ts s e = after_load-ready objs r _ ts s refl e

  module _ (iteration : IsIteration a.graphs.range_edges)
      (permutes : (m : List (ObjectMetadata × Unstructured)) → Perm (a.graphs.range m) m) where
    -- Where the tasks of a run are ready, and ranging over the edges of the graph visits each edge
    -- once and over its vertices each vertex once: an object that the run prunes was loaded, that is, the
    -- store answered with an identity for which the getter answered with the object; it is one of the
    -- objects that the inventory manager starts from; and it has not the identity of anything that the
    -- run applies.
    pub prepare-disjoint :
        (objs : List Unstructured) (r : R) (ts : List Task) (s : RunnerState R) (x y : Unstructured)
        → prepare a options objs r ≡ ready ts s
        → is_pruned x ts ≡ true
        → is_applied y ts ≡ true
        → IsTracked a r x
          × (contains object_discrete x s.manager.starting_objects ≡ true)
          × (object_metadata_from_unstructured x ≢ object_metadata_from_unstructured y)
    unfolding with_objects with_prune_objects
    prepare-disjoint objs r ts s x y e p q =
        let plan = prepare-ready objs r ts s e in
        let b = builder s.manager.starting_objects plan.wanted in
        let kept : (contains object_discrete x s.manager.starting_objects
              && not (has_id (object_metadata_from_unstructured x) plan.wanted))
            ≡ true =
          sym (find_objects_to_prune-contains x s.manager.starting_objects plan.wanted)
          ∙ sym (build-pruned a.graphs b (queue_options options) ts x plan.built)
          ∙ p in
        let there : contains object_discrete x s.manager.starting_objects ≡ true = ground arith in
        let wanted : contains object_discrete y plan.wanted ≡ true =
          sym (build-applied a.graphs iteration permutes b (queue_options options) ts y plan.built)
          ∙ q in
        let clash : has_id (object_metadata_from_unstructured x) plan.wanted ≡ true → ⊥ =
          λ h. ground arith in
        (
          load-IsTracked a x r s.manager.starting_objects plan.loaded_state plan.loaded there,
          there,
          λ same. clash (
              subst (λ id. has_id id plan.wanted ≡ true) (sym same)
                (has_id-contains y plan.wanted wanted)),
        )
