-- ===== src/Resource/Graph.antt =====
-- pkg/resource/graph.go, the graph itself: its vertices, its edges and SortedResourceGroups.
-- A map from a vertex to the set of the vertices that it depends on. Iterations over the map take
-- the order that `range` gives to its entries.
mod Residual
pub mod Layers
pub mod Loop
pub mod Topology
pub mod Sorted
pub mod Deterministic
mod Examples
use jpl.Base.{ℕ, zero, suc, List, [], ◌∷◌, ◌++◌, map, Option, none, some, length, if◌then◌else◌}
use jpl.Base.Maps.{get, put, remove, keys}
use jpl.Base.Sets.{contains, insert, delete}
use jpl.Base.Sorting.{sort}
use jpl.Resource.Object.{
  Unstructured, Dependency, object_discrete, object_metadata_from_unstructured,
}
use jpl.Resource.Less.{less_objects}

abbrev pub Edges : Type 0
Edges = List (Unstructured × List Unstructured)

pub record DependencyGraph : Type 0 where
  pub edges : Edges

-- `edges[v]`, with the nil set for a missing key
unfoldable pub targets : Unstructured → Edges → List Unstructured
unfolding get
targets v edges = elim (get object_discrete v edges) [ some s ↦ s | none ↦ [] ]

unfoldable pub add_vertex : Unstructured → Edges → Edges
unfolding get put
add_vertex obj edges = elim (get object_discrete obj edges) [
  | some _ ↦ edges
  | none ↦ put object_discrete obj [] edges
]

-- `edges := g.edges[from]; edges.Insert(to)`: `add_vertex` has set the key.
unfoldable pub add_edge : Unstructured → Unstructured → Edges → Edges
unfolding add_vertex insert targets put
add_edge from to edges =
    let both = add_vertex to (add_vertex from edges) in
    put object_discrete from (insert object_discrete to (targets from both)) both

-- The vertices with no edge left.
unfoldable pub ready : Edges → List Unstructured
ready [] = []
ready ((v, []) ∷ es) = v ∷ ready es
ready ((v, w ∷ s) ∷ es) = ready es

-- `edges[vertex] = vertexEdges.Delete(resource)` for each entry
unfoldable pub release : Unstructured → Edges → Edges
release r [] = []
release r ((v, s) ∷ es) = (v, delete object_discrete r s) ∷ release r es

-- The body of the loop over a group, on the clone of the map.
unfoldable pub place : Unstructured → Edges → Edges
unfolding release remove delete
place r edges = release r (remove object_discrete r edges)

-- The clone shares its sets with the graph: what is deleted from the set of a vertex that is still
-- in the clone is deleted from the set of that vertex in the graph.
release_shared : Unstructured → List Unstructured → Edges → Edges
release_shared r live [] = []
release_shared r live ((v, s) ∷ es) =
    let rest = release_shared r live es in
    if contains object_discrete v live
    then (v, delete object_discrete r s) ∷ rest
    else (v, s) ∷ rest

-- The clone and the graph after a group.
unfoldable pub place_group : List Unstructured → Edges → Edges → Edges × Edges
unfolding release_shared contains delete
place_group [] edges graph = (edges, graph)
place_group (r ∷ rs) edges graph =
    let edges' = place r edges in place_group rs edges' (release_shared r (keys edges') graph)

dependency : Unstructured → Unstructured → Dependency
dependency from to = record {
  from = object_metadata_from_unstructured from;
  to = object_metadata_from_unstructured to;
}

-- The edges that CyclicDependencyError reports.
unfoldable pub cyclical_dependencies : Edges → List Dependency
unfolding dependency object_metadata_from_unstructured
cyclical_dependencies [] = []
cyclical_dependencies ((from, to_list) ∷ es) =
    map (dependency from) to_list ++ cyclical_dependencies es

-- What SortedResourceGroups returns, and the map of the graph that it leaves.
pub record SortedGroups : Type 0 where
  pub groups : List (List Unstructured)
  pub error : Option (List Dependency)
  pub graph : Edges

-- The loop ends with no further group.
abbrev pub no_more_groups : Option (List Dependency) → Edges → SortedGroups
no_more_groups error graph = record { groups = []; error = error; graph = graph }

abbrev add_group : List Unstructured → Option SortedGroups → Option SortedGroups
add_group group none = none
add_group group (some r) = some (record r { groups = sort less_objects group ∷ r.groups })

module _ (range : Edges → Edges) where
  -- The loop, on fuel: a round takes at least one vertex from the clone.
  rounds : ℕ → Edges → Edges → Option SortedGroups
  rounds fuel [] graph = some (no_more_groups none graph)
  rounds zero (e ∷ es) graph = none
  rounds (suc fuel) (e ∷ es) graph = elim (ready (range (e ∷ es))) [
    | [] ↦ some (no_more_groups (some (cyclical_dependencies (range (e ∷ es)))) graph)
    | v ∷ vs ↦
        let placed = place_group (v ∷ vs) (e ∷ es) graph in
        add_group (v ∷ vs) (rounds fuel placed.0 placed.1)
  ]

  unfoldable pub sorted_resource_groups : DependencyGraph → Option SortedGroups
  unfolding rounds ready place place_group cyclical_dependencies sort less_objects
  sorted_resource_groups g = rounds (length g.edges) g.edges g.edges
