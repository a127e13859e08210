-- ===== src/Resource/Graph/Sorted.antt =====
-- The contract of SortedResourceGroups.
use mathlib.Core.List.{Mem, Nodup, Perm, flatten, not-mem-nil}
use mathlib.Core.Option.{some-injective}
use jpl.Base.{
  ℕ, ◌<◌, ◌≡◌, refl, sym, subst, ◌∙◌, ◌↔◌, List, [], ◌∷◌, true, arith, Option, none, some, length,
  All,
}
use jpl.Base.Maps.{keys, get}
use jpl.Base.Sets.{contains, contains_of_mem, mem_of_contains}
use jpl.Resource.Object.{Unstructured, Dependency, object_discrete}
use jpl.Resource.Graph.{Edges, DependencyGraph, targets, SortedGroups, sorted_resource_groups}
use jpl.Resource.Graph.Layers.{Layers, IsComplete, IsOutcome, all_placed_sound}
use jpl.Resource.Graph.Residual.{all_placed}
use jpl.Resource.Graph.Loop.{sorted_resource_groups-IsOutcome}
use jpl.Resource.Graph.Topology.{
  layer_of, Layers-perm, Layers-order, Layers-total, IsClosed, IsRanked, not-IsStuck, Layers-end,
}

-- Only a vertex has targets.
contains-keys_of_targets :
    (es : Edges) (v w : Unstructured)
    → contains object_discrete w (targets v es) ≡ true
    → contains object_discrete v (keys es) ≡ true
unfolding targets get contains
contains-keys_of_targets [] v w h = absurd (cc)
contains-keys_of_targets ((u, s) ∷ es) v w h = ground (arith, contains-keys_of_targets es v w)

mem-keys_of_targets : (es : Edges) (v w : Unstructured) → Mem w (targets v es) → Mem v (keys es)
mem-keys_of_targets es v w m =
    mem_of_contains object_discrete v (keys es)
      (contains-keys_of_targets es v w (contains_of_mem object_discrete w (targets v es) m))

-- An iteration over a map visits each entry once, in some order.
abbrev pub IsIteration : (Edges → Edges) → Type 0
IsIteration range = (es : Edges) → Perm (range es) es

module _ (range : Edges → Edges) (iteration : IsIteration range) (g : DependencyGraph)
    (distinct : Nodup (keys g.edges)) where
  pub IsOutcome-of :
      {r : SortedGroups}
      → sorted_resource_groups range g ≡ some r
      → IsOutcome g.edges [] r.groups r.error
  IsOutcome-of {r} run =
      let (r', run', outcome) = sorted_resource_groups-IsOutcome range iteration g distinct in
      subst (λ (x : SortedGroups). IsOutcome g.edges [] x.groups x.error)
        (some-injective r' r (sym run' ∙ run)) outcome

IsComplete-of :
    (es : Edges) (gs : List (List Unstructured)) (error : Option (List Dependency))
    → error ≡ none
    → IsOutcome es [] gs error
    → Layers (IsComplete es) es [] gs
IsComplete-of es gs none e h = h
IsComplete-of es gs (some ds) e h = absurd (cc)

-- For a graph whose map has each key once, whatever order the iterations take: where a call returns
-- no error, its groups hold every vertex of the graph exactly once, and nothing else.
pub sorted_resource_groups-perm :
    (range : Edges → Edges) (g : DependencyGraph) {r : SortedGroups}
    → IsIteration range
    → Nodup (keys g.edges)
    → sorted_resource_groups range g ≡ some r
    → r.error ≡ none
    → Perm (flatten r.groups) (keys g.edges)
sorted_resource_groups-perm range g {r} iteration distinct run fine =
    Layers-perm g.edges r.groups distinct
      (IsComplete-of g.edges r.groups r.error fine (IsOutcome-of range iteration g distinct run))

order_of :
    (es : Edges) (gs : List (List Unstructured)) (error : Option (List Dependency))
    (v w : Unstructured)
    → IsOutcome es [] gs error
    → Mem v (flatten gs)
    → Mem w (targets v es)
    → (layer_of w gs < layer_of v gs) × (layer_of v gs < length gs)
order_of es gs none v w h m t = Layers-order es _ [] gs v w h m t not-mem-nil
order_of es gs (some ds) v w h m t = Layers-order es _ [] gs v w h m t not-mem-nil

-- For a graph whose map has each key once, whatever order the iterations take: a vertex of a returned
-- group has each of its targets in an earlier group, also where the call returns groups beside an
-- error.
pub sorted_resource_groups_order :
    (range : Edges → Edges) (g : DependencyGraph) (v w : Unstructured) {r : SortedGroups}
    → IsIteration range
    → Nodup (keys g.edges)
    → sorted_resource_groups range g ≡ some r
    → Mem v (flatten r.groups)
    → Mem w (targets v g.edges)
    → (layer_of w r.groups < layer_of v r.groups) × (layer_of v r.groups < length r.groups)
sorted_resource_groups_order range g v w {r} iteration distinct run m t =
    order_of g.edges r.groups r.error v w (IsOutcome-of range iteration g distinct run) m t

IsRanked-of :
    (es : Edges) (gs : List (List Unstructured)) (error : Option (List Dependency))
    → IsOutcome es [] gs error
    → error ≡ none
    → IsRanked (λ v. layer_of v gs) es
IsRanked-of es gs (some ds) h fine v w t = absurd (cc)
IsRanked-of es gs none h fine v w t =
    (Layers-order es _ [] gs v w h
      (Layers-total es [] gs h v (mem-keys_of_targets es v w t) not-mem-nil) t not-mem-nil).0

fine_of :
    (es : Edges) (gs : List (List Unstructured)) (error : Option (List Dependency))
    (rank : Unstructured → ℕ)
    → IsClosed es
    → IsOutcome es [] gs error
    → IsRanked rank es
    → error ≡ none
fine_of es gs none rank closed h ranked = refl
fine_of es gs (some ds) rank closed h ranked =
    let (placed, stuck) = Layers-end _ es [] gs h in
    absurd (not-IsStuck es rank placed closed ranked stuck)

-- For a graph whose map has each key once and whose edges lead to vertices, whatever order the
-- iterations take: a call that returns does so with no error exactly when the graph has no cycle, that
-- is, when some numbering of the vertices falls along every edge.
pub sorted_resource_groups-error_iff :
    (range : Edges → Edges) (g : DependencyGraph) {r : SortedGroups}
    → IsIteration range
    → Nodup (keys g.edges)
    → IsClosed g.edges
    → sorted_resource_groups range g ≡ some r
    → (r.error ≡ none) ↔ ((rank : Unstructured → ℕ) × IsRanked rank g.edges)
sorted_resource_groups-error_iff range g {r} iteration distinct closed run =
    let h = IsOutcome-of range iteration g distinct run in
    (
      λ fine. (λ v. layer_of v r.groups, IsRanked-of g.edges r.groups r.error h fine),
      λ (rank, ranked). fine_of g.edges r.groups r.error rank closed h ranked,
    )

-- A check of the sets of a map against the vertices.
contains_of_sets :
    (known : List Unstructured) (es : Edges) (v w : Unstructured)
    → All (λ (e : Unstructured × List Unstructured). all_placed known e.1 ≡ true) es
    → contains object_discrete w (targets v es) ≡ true
    → contains object_discrete w known ≡ true
unfolding targets get contains
contains_of_sets known [] v w h c = absurd (cc)
contains_of_sets known ((u, s) ∷ es) v w h c = elim (object_discrete u v) [
  | yes p ↦
      contains_of_mem object_discrete w known
        (all_placed_sound known s h.0 w (mem_of_contains object_discrete w s (ground arith)))
  | no p ↦ contains_of_sets known es v w h.1 (ground arith)
]

pub IsClosed-of_sets :
    (es : Edges)
    → All (λ (e : Unstructured × List Unstructured). all_placed (keys es) e.1 ≡ true) es
    → IsClosed es
IsClosed-of_sets es h v w m =
    mem_of_contains object_discrete w (keys es)
      (contains_of_sets (keys es) es v w h (contains_of_mem object_discrete w (targets v es) m))
