-- ===== src/Resource/Graph/Loop.antt =====
-- The loop of SortedResourceGroups keeps the clone in its closed form, ends, and returns layers.
use mathlib.Core.List.{Nodup, Perm, not-mem-nil, mem-cons_self}
use mathlib.Core.List.Perm
use jpl.Base.{
  ℕ, zero, suc, ◌≤◌, ◌<◌, ◌≡◌, ◌≢◌, refl, sym, ap, subst, ◌∙◌, List, [], ◌∷◌, ◌++◌, false, arith,
  Option, none, some, length,
}
use jpl.Base.Maps.{keys}
use jpl.Base.Sets.{
  contains, contains_of_mem, mem_of_contains, not_mem_of_contains, contains_of_not_mem,
  contains_of_perm,
}
use jpl.Base.Sorting.{sort, sort-perm, sort-IsSorted, IsSorted}
use jpl.Resource.Object.{Unstructured, object_discrete, object_metadata_from_unstructured}
use jpl.Resource.Less.{less, less_objects}
use jpl.Resource.Less.Order.{less-IsStrict, less-IsConnected}
use jpl.Resource.Graph.{
  Edges, DependencyGraph, targets, ready, place_group, SortedGroups, no_more_groups, rounds,
  cyclical_dependencies, sorted_resource_groups,
}
use jpl.Resource.Graph.Residual.{
  residual, residual-ext, residual_none, is_ready, contains-ready-residual, place_group-residual,
  residual-eq-nil, residual-head, all_placed-false, length-residual-lt, ready-residual-Nodup,
}
use jpl.Resource.Graph.Layers.{
  IsLayer, IsComplete, IsStuck, IsOutcome, is_ready_sound, is_ready_complete, ready-perm,
  all_placed_of_not_ready, IsOutcome-cons,
}

sort_objects-IsSorted : (l : List Unstructured) → IsSorted less_objects (sort less_objects l)
unfolding less_objects
sort_objects-IsSorted =
    sort-IsSorted object_metadata_from_unstructured less less-IsStrict less-IsConnected

module _ (range : Edges → Edges) (range-perm : (es : Edges) → Perm (range es) es) (es : Edges)
    (distinct : Nodup (keys es)) where
  abbrev group_of : List Unstructured → List Unstructured
  group_of placed = ready (range (residual placed es))

  contains-group :
      (placed : List Unstructured) (v : Unstructured)
      → contains object_discrete v (group_of placed) ≡ is_ready es placed v
  contains-group placed v =
      contains_of_perm object_discrete v (ready-perm (range-perm (residual placed es)))
      ∙ contains-ready-residual placed es v distinct

  sorted_group-perm :
      (placed : List Unstructured)
      → Perm (sort less_objects (group_of placed)) (ready (residual placed es))
  sorted_group-perm placed =
      Perm.trans (sort-perm less_objects (group_of placed))
        (ready-perm (range-perm (residual placed es)))

  group-IsLayer :
      (placed : List Unstructured)
      → group_of placed ≢ []
      → IsLayer es placed (sort less_objects (group_of placed))
  group-IsLayer placed some_ready = (
    λ e. some_ready (
        Perm.eq-nil
          (Perm.trans (Perm.symm (sort-perm less_objects (group_of placed))) (rw e Perm.rfl))),
    sort_objects-IsSorted (group_of placed),
    Perm.nodup (Perm.symm (sorted_group-perm placed)) (ready-residual-Nodup placed es distinct),
    λ v. (
      λ m. is_ready_sound es placed v (
          sym (contains-group placed v)
          ∙ contains_of_mem object_discrete v (group_of placed)
              (Perm.subset (sort-perm less_objects (group_of placed)) v m)),
      λ r. Perm.subset (Perm.symm (sort-perm less_objects (group_of placed))) v (
          mem_of_contains object_discrete v (group_of placed)
            (contains-group placed v ∙ is_ready_complete es placed v r)),
    ),
  )

  residual-nil-IsComplete :
      (placed : List Unstructured) → residual placed es ≡ [] → IsComplete es placed
  residual-nil-IsComplete placed e v m =
      mem_of_contains object_discrete v placed
        (residual-eq-nil placed es v e (contains_of_mem object_discrete v (keys es) m))

  empty_group-IsStuck :
      (placed : List Unstructured) {e : Unstructured × List Unstructured} {rest : Edges}
      → residual placed es ≡ e ∷ rest
      → group_of placed ≡ []
      → IsStuck es placed
  empty_group-IsStuck placed {e} {rest} q none_ready = (
    (
      e.0,
      mem_of_contains object_discrete e.0 (keys es)
          (residual-head placed es {e = e} {rest = rest} q).0,
      not_mem_of_contains object_discrete e.0 placed
          (residual-head placed es {e = e} {rest = rest} q).1,
    ),
    λ v m fresh.
        let (w, target, waits) =
          all_placed-false placed (targets v es)
            (all_placed_of_not_ready es placed v (not_ready v) m fresh) in
        (
          w,
          mem_of_contains object_discrete w (targets v es) target,
          not_mem_of_contains object_discrete w placed waits,
        ),
  )
    where
      not_ready : (v : Unstructured) → is_ready es placed v ≡ false
      not_ready v =
          sym (contains-group placed v)
          ∙ contains_of_not_mem object_discrete v (group_of placed) (rw none_ready not-mem-nil)

  -- The vertices of the group are known and not placed yet, so the clone gets shorter.
  group_shortens :
      (placed : List Unstructured) {v : Unstructured} {vs : List Unstructured}
      → group_of placed ≡ v ∷ vs
      → length (residual ((v ∷ vs) ++ placed) es) < length (residual placed es)
  group_shortens placed {v} {vs} q =
      let here = contains_of_mem object_discrete v (v ∷ vs) mem-cons_self in
      let (known, fresh, _) =
        is_ready_sound es placed v (sym (contains-group placed v) ∙ (rw q here)) in
      length-residual-lt (v ∷ vs) placed es v (contains_of_mem object_discrete v (keys es) known)
        (contains_of_not_mem object_discrete v placed fresh) here

  residual-sort :
      (placed group : List Unstructured)
      → residual (sort less_objects group ++ placed) es ≡ residual (group ++ placed) es
  residual-sort placed group =
      residual-ext _ _ es λ v.
        contains_of_perm object_discrete v (Perm.append (sort-perm less_objects group) Perm.rfl)

  abbrev Returns : List Unstructured → Option SortedGroups → Type 0
  Returns placed result =
      (r : SortedGroups) × (result ≡ some r) × IsOutcome es placed r.groups r.error

  -- What the rounds that follow do, on fuel.
  abbrev LoopReturns : ℕ → Type 0
  LoopReturns fuel =
      (placed : List Unstructured) (edges graph : Edges)
      → edges ≡ residual placed es
      → length edges ≤ fuel
      → Returns placed (rounds range fuel edges graph)

  round-Returns :
      (fuel : ℕ) (placed : List Unstructured) (x : Unstructured × List Unstructured)
      (rest graph : Edges)
      → LoopReturns fuel
      → x ∷ rest ≡ residual placed es
      → length (x ∷ rest) ≤ suc fuel
      → (group : List Unstructured) → ready (range (x ∷ rest)) ≡ group
      → Returns placed (rounds range (suc fuel) (x ∷ rest) graph)
  unfolding rounds
  round-Returns fuel placed x rest graph loop e fits [] g = (
    no_more_groups (some (cyclical_dependencies (range (x ∷ rest)))) graph,
    rw (g, rounds),
    empty_group-IsStuck placed {e = x} {rest = rest} (sym e) (rw (← e) g),
  )
  round-Returns fuel placed x rest graph loop e fits (v ∷ vs) g =
      let g' : group_of placed ≡ v ∷ vs = rw (← e) g in
      let step = place_group (v ∷ vs) (x ∷ rest) graph in
      let closed = place_group-residual (v ∷ vs) placed es graph e in
      let shorter = group_shortens placed {v = v} {vs = vs} g' in
      let (r, run, outcome) =
        loop (sort less_objects (v ∷ vs) ++ placed) step.0 step.1
          (closed ∙ sym (residual-sort placed (v ∷ vs)))
          (omega (arith, ap length closed, ap length e, shorter)) in
      (
        record r { groups = sort less_objects (v ∷ vs) ∷ r.groups },
        rw (g, rounds) (rw run),
        IsOutcome-cons es placed (sort less_objects (v ∷ vs)) r.groups r.error
            (subst (λ l. IsLayer es placed (sort less_objects l)) g'
              (group-IsLayer placed (rw g' (cc))))
            outcome,
      )

  rounds-Returns : (fuel : ℕ) → LoopReturns fuel
  unfolding rounds
  rounds-Returns fuel placed [] graph e fits =
      (no_more_groups none graph, refl, residual-nil-IsComplete placed (sym e))
  rounds-Returns zero placed (x ∷ rest) graph e fits = absurd (omega arith)
  rounds-Returns (suc fuel) placed (x ∷ rest) graph e fits =
      round-Returns fuel placed x rest graph (rounds-Returns fuel) e fits _ refl

-- SortedResourceGroups returns, whatever order its iterations take, for every graph whose map has
-- each key once. Without an error each group is, above the groups before it, exactly the set of the vertices whose targets are all
-- placed, each once and in the order of resources, and all vertices are placed. With an error the
-- groups are such layers too, some vertex is not placed, and each such vertex has a target that is
-- not placed.
pub sorted_resource_groups-IsOutcome :
    (range : Edges → Edges)
    → ((es : Edges) → Perm (range es) es)
    → (g : DependencyGraph) → Nodup (keys g.edges)
    → (r : SortedGroups) × (sorted_resource_groups range g ≡ some r)
      × IsOutcome g.edges [] r.groups r.error
unfolding sorted_resource_groups
sorted_resource_groups-IsOutcome range range-perm g distinct =
    rounds-Returns range range-perm g.edges distinct (length g.edges) [] g.edges g.edges
      (sym (residual_none g.edges)) (omega arith)
