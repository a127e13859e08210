-- ===== src/Resource/Build/Vertices.antt =====
-- The graph that NewDependencyGraph makes is well formed: each vertex stands once, and each edge
-- leads to a vertex.
use mathlib.Core.List.{Nodup}
use jpl.Base.{subst, ℕ, ◌↔◌, List, [], ◌∷◌, Option, none, some, ◌≡◌, refl, arith}
use jpl.Base.Maps.{keys}
use jpl.Base.Sets.{contains_of_mem, mem_of_contains}
use jpl.Resource.Object.{GroupKind, ObjectMetadata, Unstructured, object_discrete}
use jpl.Resource.Graph.{
  SortedGroups, sorted_resource_groups, Edges, DependencyGraph, targets, add_edge,
}
use jpl.Resource.Graph.Topology.{IsClosed, IsRanked}
use jpl.Resource.Graph.Loop.{sorted_resource_groups-IsOutcome}
use jpl.Resource.Graph.Sorted.{IsIteration, sorted_resource_groups-error_iff}
use jpl.Resource.Build.{
  BuildError, ServiceReference, Lookups, add_edges, add_edges_to, add_edge_if, link, link_all,
  collect, register_kind, register_crd, no_lookups, finish, new_dependency_graph,
}
use jpl.Resource.Build.WellFormed.{IsGood, empty-IsGood, add_vertex-IsGood, add_edge-IsGood}

add_edge_if-IsGood :
    (v : Unstructured) (o : Option Unstructured) (es : Edges)
    → IsGood es
    → IsGood (add_edge_if v o es)
unfolding add_edge_if
add_edge_if-IsGood v none es h = h
add_edge_if-IsGood v (some w) es h = add_edge-IsGood v w es h

add_edges-IsGood :
    (v : Unstructured) (ws : List Unstructured) (es : Edges)
    → IsGood es
    → IsGood (add_edges v ws es)
unfolding add_edges
add_edges-IsGood v [] es h = h
add_edges-IsGood v (w ∷ ws) es h =
    add_edges-IsGood v ws (add_edge v w es) (add_edge-IsGood v w es h)

add_edges_to-IsGood :
    (v : Unstructured) (ws : List Unstructured) (es : Edges)
    → IsGood es
    → IsGood (add_edges_to v ws es)
unfolding add_edges_to
add_edges_to-IsGood v [] es h = h
add_edges_to-IsGood v (w ∷ ws) es h =
    add_edges_to-IsGood v ws (add_edge w v es) (add_edge-IsGood w v es h)

link-IsGood :
    (maps : Lookups) (entry : ObjectMetadata × Unstructured) (es : Edges)
    → IsGood es
    → IsGood (link maps entry es).0
unfolding link
link-IsGood maps (meta, obj) es h =
    add_edges-IsGood obj _ _
      (add_edges_to-IsGood obj _ _ (add_edge_if-IsGood obj _ _ (add_edge_if-IsGood obj _ es h)))

link_all-IsGood :
    (maps : Lookups) (entries : List (ObjectMetadata × Unstructured)) (es : Edges)
    → IsGood es
    → IsGood (link_all maps entries es).0
unfolding link_all
link_all-IsGood maps [] es h = h
link_all-IsGood maps (entry ∷ entries) es h =
    link_all-IsGood maps entries (link maps entry es).0 (link-IsGood maps entry es h)

register_crd-edges :
    (obj : Unstructured) (o : Option GroupKind) (maps : Lookups)
    → (register_crd obj o maps).edges ≡ maps.edges
unfolding register_crd
register_crd-edges obj none maps = refl
register_crd-edges obj (some gk) maps = refl

finish-IsGood :
    (built : Edges × List BuildError) (g : DependencyGraph)
    → IsGood built.0
    → (finish built).0 ≡ some g
    → IsGood g.edges
unfolding finish
finish-IsGood (edges, []) g h e = subst (λ (d : DependencyGraph). IsGood d.edges) (cc) h
finish-IsGood (edges, error ∷ errors) g h e = absurd (cc)

module _ (crd_group_kind : Unstructured → Option GroupKind)
    (webhook_services : Unstructured → List (Option ServiceReference)) where
  pub register_kind-edges :
      (obj : Unstructured) (maps : Lookups)
      → (register_kind crd_group_kind webhook_services obj maps).edges ≡ maps.edges
  unfolding register_kind
  register_kind-edges obj maps = ground (arith, register_crd-edges obj (crd_group_kind obj) maps)

  collect-IsGood :
      (objs : List Unstructured) (maps : Lookups)
      → IsGood maps.edges
      → IsGood (collect crd_group_kind webhook_services objs maps).edges
  unfolding collect
  collect-IsGood [] maps h = h
  collect-IsGood (obj ∷ objs) maps h =
      collect-IsGood objs _ (rw (register_kind-edges obj _) (add_vertex-IsGood obj maps.edges h))

  new_dependency_graph-IsGood :
      (range : List (ObjectMetadata × Unstructured) → List (ObjectMetadata × Unstructured))
      (objs : List Unstructured) (g : DependencyGraph)
      → (new_dependency_graph crd_group_kind webhook_services range objs).0 ≡ some g
      → IsGood g.edges
  unfolding new_dependency_graph
  new_dependency_graph-IsGood range [] g e =
      subst (λ (d : DependencyGraph). IsGood d.edges) {x = record { edges = [] }} (cc) empty-IsGood
  new_dependency_graph-IsGood range (obj ∷ objs) g e =
      finish-IsGood _ g
        (link_all-IsGood _ _ _ (collect-IsGood (obj ∷ objs) no_lookups empty-IsGood)) e

  -- A graph that NewDependencyGraph returns has each vertex once, and each of its edges leads to one
  -- of its vertices.
  pub new_dependency_graph-IsClosed :
      (range : List (ObjectMetadata × Unstructured) → List (ObjectMetadata × Unstructured))
      (objs : List Unstructured) (g : DependencyGraph)
      → (new_dependency_graph crd_group_kind webhook_services range objs).0 ≡ some g
      → Nodup (keys g.edges) × IsClosed g.edges
  new_dependency_graph-IsClosed range objs g e =
      let good = new_dependency_graph-IsGood range objs g e in
      (
        good.distinct,
        λ v w m.
            mem_of_contains object_discrete w (keys g.edges)
              (good.closed v w (contains_of_mem object_discrete w (targets v g.edges) m)),
      )

  -- The objects of a graph that NewDependencyGraph returns can always be sorted: SortedResourceGroups
  -- returns, whatever order its iterations take, and it returns no error exactly when some numbering of
  -- the objects falls along every edge.
  pub new_dependency_graph-sorted :
      (range : List (ObjectMetadata × Unstructured) → List (ObjectMetadata × Unstructured))
      (range_edges : Edges → Edges) (objs : List Unstructured) (g : DependencyGraph)
      → IsIteration range_edges
      → (new_dependency_graph crd_group_kind webhook_services range objs).0 ≡ some g
      → (r : SortedGroups) × (sorted_resource_groups range_edges g ≡ some r)
        × ((r.error ≡ none) ↔ ((rank : Unstructured → ℕ) × IsRanked rank g.edges))
  new_dependency_graph-sorted range range_edges objs g iteration e =
      let (distinct, closed) = new_dependency_graph-IsClosed range objs g e in
      let (r, run, outcome) = sorted_resource_groups-IsOutcome range_edges iteration g distinct in
      (r, run, (sorted_resource_groups-error_iff range_edges g iteration distinct closed run))
