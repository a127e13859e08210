-- ===== src/Resource/Build/Complete.antt =====
-- The graph that NewDependencyGraph returns has every object as a vertex.
use mathlib.Core.List.{Mem, not-mem-nil, List, [], ◌∷◌}
use jpl.Base.{subst, Option, none, some, true, ◌≡◌, ◌||◌, arith}
use jpl.Base.Maps.{keys}
use jpl.Base.Sets.{contains, insert, contains-insert, mem_of_contains, contains_of_mem}
use jpl.Resource.Object.{GroupKind, ObjectMetadata, Unstructured, object_discrete}
use jpl.Resource.Graph.{Edges, DependencyGraph, targets, add_vertex, add_edge}
use jpl.Resource.Build.{
  BuildError, ServiceReference, Lookups, add_edges, add_edges_to, add_edge_if, link, link_all,
  collect, no_lookups, finish, new_dependency_graph,
}
use jpl.Resource.Build.WellFormed.{contains-add_vertex}
use jpl.Base.Keys.{keys-put}
use jpl.Resource.Build.Vertices.{register_kind-edges}

module _ (x : Unstructured) where
  abbrev IsVertex : Edges → Type 0
  IsVertex es = contains object_discrete x (keys es) ≡ true

  add_vertex-IsVertex : (v : Unstructured) (es : Edges) → IsVertex es → IsVertex (add_vertex v es)
  add_vertex-IsVertex v es h = ground (arith, contains-add_vertex v x es)

  add_edge-IsVertex : (v w : Unstructured) (es : Edges) → IsVertex es → IsVertex (add_edge v w es)
  unfolding add_edge
  add_edge-IsVertex v w es h =
      let both = add_vertex w (add_vertex v es) in
      ground (
        arith,
        keys-put object_discrete v (insert object_discrete w (targets v both)) both,
        contains-insert object_discrete v x (keys both),
        contains-add_vertex w x (add_vertex v es),
        contains-add_vertex v x es,
      )

  add_edge_if-IsVertex :
      (v : Unstructured) (o : Option Unstructured) (es : Edges)
      → IsVertex es
      → IsVertex (add_edge_if v o es)
  unfolding add_edge_if
  add_edge_if-IsVertex v none es h = h
  add_edge_if-IsVertex v (some w) es h = add_edge-IsVertex v w es h

  add_edges-IsVertex :
      (v : Unstructured) (ws : List Unstructured) (es : Edges)
      → IsVertex es
      → IsVertex (add_edges v ws es)
  unfolding add_edges
  add_edges-IsVertex v [] es h = h
  add_edges-IsVertex v (w ∷ ws) es h =
      add_edges-IsVertex v ws (add_edge v w es) (add_edge-IsVertex v w es h)

  add_edges_to-IsVertex :
      (v : Unstructured) (ws : List Unstructured) (es : Edges)
      → IsVertex es
      → IsVertex (add_edges_to v ws es)
  unfolding add_edges_to
  add_edges_to-IsVertex v [] es h = h
  add_edges_to-IsVertex v (w ∷ ws) es h =
      add_edges_to-IsVertex v ws (add_edge w v es) (add_edge-IsVertex w v es h)

  link_all-IsVertex :
      (maps : Lookups) (entries : List (ObjectMetadata × Unstructured)) (es : Edges)
      → IsVertex es
      → IsVertex (link_all maps entries es).0
  unfolding link_all link
  link_all-IsVertex maps [] es h = h
  link_all-IsVertex maps ((meta, obj) ∷ entries) es h = link_all-IsVertex maps entries _ (
      add_edges-IsVertex obj _ _ (
        add_edges_to-IsVertex obj _ _
          (add_edge_if-IsVertex obj _ _ (add_edge_if-IsVertex obj _ es h))))

  finish-IsVertex :
      (built : Edges × List BuildError) (g : DependencyGraph)
      → IsVertex built.0
      → (finish built).0 ≡ some g
      → IsVertex g.edges
  unfolding finish
  finish-IsVertex (edges, []) g h e = subst (λ (d : DependencyGraph). IsVertex d.edges) (cc) h
  finish-IsVertex (edges, error ∷ errors) g h e = absurd (cc)

  module _ (crd_group_kind : Unstructured → Option GroupKind)
      (webhook_services : Unstructured → List (Option ServiceReference)) where
    collect-IsVertex :
        (objs : List Unstructured) (maps : Lookups)
        → (contains object_discrete x objs || contains object_discrete x (keys maps.edges)) ≡ true
        → IsVertex (collect crd_group_kind webhook_services objs maps).edges
    unfolding collect contains
    collect-IsVertex [] maps h = h
    collect-IsVertex (obj ∷ objs) maps h = collect-IsVertex objs _ (
        rw (register_kind-edges crd_group_kind webhook_services obj _)
          (ground (arith, contains-add_vertex obj x maps.edges)))

    -- A graph that NewDependencyGraph returns has each of the objects as a vertex.
    pub new_dependency_graph_complete :
        (range : List (ObjectMetadata × Unstructured) → List (ObjectMetadata × Unstructured))
        (objs : List Unstructured) (g : DependencyGraph)
        → (new_dependency_graph crd_group_kind webhook_services range objs).0 ≡ some g
        → Mem x objs
        → Mem x (keys g.edges)
    unfolding new_dependency_graph
    new_dependency_graph_complete range [] g e m = absurd (not-mem-nil m)
    new_dependency_graph_complete range (obj ∷ objs) g e m =
        mem_of_contains object_discrete x (keys g.edges) (
          finish-IsVertex _ g
            (link_all-IsVertex _ _ _ (
              collect-IsVertex (obj ∷ objs) no_lookups
                (ground (arith, contains_of_mem object_discrete x (obj ∷ objs) m))))
            e)
