-- ===== src/Resource/Build/Examples.antt =====
-- The graph of a deployment and of its namespace.
use mathlib.Core.Bool.{decide}
use mathlib.Core.List.{Nodup}
use jpl.Base.{◌≡◌, refl, codes, List, [], ◌∷◌, Option, none, some, str_discrete, ℕ_discrete}
use jpl.Base.Maps.{get, put, keys}
use jpl.Base.Sets.{contains, insert}
use jpl.Resource.Object.{
  GroupKind, ObjectMetadata, Unstructured, object_discrete, group_kind_discrete, metadata_discrete,
  object_metadata_from_unstructured, is_crd, is_namespace, is_registration_webhook,
}
use jpl.Resource.Depends.{object_explicit_dependencies}
use jpl.Resource.Graph.{Edges, DependencyGraph, targets, add_vertex, add_edge}
use jpl.Resource.Graph.Topology.{IsClosed}
use jpl.Resource.Build.{
  ServiceReference, new_dependency_graph, collect, register_kind, register_crd, link, link_all,
  finish, add_edges, add_edges_to, add_edge_if, or_nil, dependendencies_for_obj, resolve,
  annotation_errors,
}
use jpl.Resource.Build.Vertices.{new_dependency_graph-IsClosed}

abbrev pub shop : Unstructured
shop = record {
  address = 1;
  gvk = record { group = []; version = codes "v1"; kind = codes "Namespace" };
  name = codes "shop";
  namespace = [];
  annotations = [];
}

abbrev pub web : Unstructured
web = record {
  address = 2;
  gvk = record { group = codes "apps"; version = codes "v1"; kind = codes "Deployment" };
  name = codes "web";
  namespace = codes "shop";
  annotations = [];
}

abbrev pub no_crd : Unstructured → Option GroupKind
no_crd obj = none

abbrev pub no_service : Unstructured → List (Option ServiceReference)
no_service obj = []

abbrev pub as_listed : List (ObjectMetadata × Unstructured) → List (ObjectMetadata × Unstructured)
as_listed entries = entries

abbrev pub edges_as_listed : Edges → Edges
edges_as_listed es = es

abbrev pub graph : DependencyGraph
graph = record { edges = (web, shop ∷ []) ∷ (shop, []) ∷ [] }

program : Unit {0}
unfolding new_dependency_graph collect register_kind register_crd link link_all finish add_edges
    add_edges_to add_edge_if or_nil dependendencies_for_obj resolve annotation_errors add_vertex
    add_edge targets get put insert contains object_discrete group_kind_discrete metadata_discrete
    object_metadata_from_unstructured is_crd is_namespace is_registration_webhook decide
    str_discrete ℕ_discrete object_explicit_dependencies
program = tt

pub whole : new_dependency_graph no_crd no_service as_listed (web ∷ shop ∷ []) ≡ (some graph, [])
unfolding program
whole = refl

built : (new_dependency_graph no_crd no_service as_listed (web ∷ shop ∷ [])).0 ≡ some graph
unfolding program
built = refl

new_dependency_graph-IsClosed_example : Nodup (keys graph.edges) × IsClosed graph.edges
new_dependency_graph-IsClosed_example =
    new_dependency_graph-IsClosed no_crd no_service as_listed (web ∷ shop ∷ []) graph built
