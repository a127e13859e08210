-- ===== src/Resource/Build.antt =====
-- pkg/resource/graph.go and unstructured.go: NewDependencyGraph, which finds the dependencies of a
-- set of objects and makes the graph of them. The typed CRD and the webhooks of a configuration are
-- what apimachinery converts the object to.
pub mod WellFormed
pub mod Vertices
pub mod Complete
pub mod Within
pub mod Examples
use jpl.Base.{
  Str, str_discrete, List, [], ◌∷◌, ◌++◌, Option, none, some, Bool, true, false, if◌then◌else◌,
}
use jpl.Base.Maps.{get, put}
use jpl.Resource.Object.{
  GroupKind, ObjectMetadata, Unstructured, Dependency, group_kind_discrete, metadata_discrete,
  metadata_group_kind, object_metadata_from_unstructured, service_gk, is_crd, is_namespace,
  is_registration_webhook,
}
use jpl.Resource.Depends.{DependsError, object_explicit_dependencies}
use jpl.Resource.Graph.{Edges, DependencyGraph, add_vertex, add_edge}

pub record ServiceReference : Type 0 where
  pub namespace : Str
  pub name : Str

-- The error of an annotation, or ExternalDependencyError.
pub data BuildError : Type 0 where
  invalid_annotation : DependsError → BuildError
  external_dependency : Dependency → BuildError

-- The maps that the first loop fills.
pub record Lookups : Type 0 where
  pub edges : Edges
  pub crds : List (GroupKind × Unstructured)
  pub namespaces : List (Str × Unstructured)
  pub webhooks : List (ObjectMetadata × List Unstructured)
  pub metadata_lookup : List (ObjectMetadata × Unstructured)

service_metadata : ServiceReference → ObjectMetadata
service_metadata s = record {
  name = s.name;
  namespace = s.namespace;
  group = service_gk.group;
  kind = service_gk.kind;
}

-- servicesMetadataFromWebhook, on the service of each webhook's valid client configuration.
pub services_metadata : List (Option ServiceReference) → List ObjectMetadata
services_metadata [] = []
services_metadata (none ∷ rest) = services_metadata rest
services_metadata (some s ∷ rest) = service_metadata s ∷ services_metadata rest

-- `webhooks[svc] = append(webhooks[svc], obj)` for each service
register :
    Unstructured
    → List ObjectMetadata
    → List (ObjectMetadata × List Unstructured)
    → List (ObjectMetadata × List Unstructured)
register obj [] webhooks = webhooks
register obj (svc ∷ svcs) webhooks =
    let known = elim (get metadata_discrete svc webhooks) as (λ o. List Unstructured) [
      | none ↦ []
      | some objs ↦ objs
    ] in
    register obj svcs (put metadata_discrete svc (known ++ (obj ∷ [])) webhooks)

-- The dependencies that the lookup holds, and an error for each that it does not hold.
resolve :
    ObjectMetadata
    → List ObjectMetadata
    → List (ObjectMetadata × Unstructured)
    → List Unstructured × List BuildError
resolve from [] lookup = ([], [])
resolve from (to ∷ tos) lookup =
    let (found, errors) = resolve from tos lookup in
    elim (get metadata_discrete to lookup) [
      | some dep ↦ (dep ∷ found, errors)
      | none ↦ (found, external_dependency (record { from = from; to = to }) ∷ errors)
    ]

annotation_errors : Option DependsError → List BuildError
annotation_errors none = []
annotation_errors (some e) = invalid_annotation e ∷ []

-- dependendenciesForObj
pub dependendencies_for_obj :
    Unstructured → List (ObjectMetadata × Unstructured) → List Unstructured × List BuildError
dependendencies_for_obj obj lookup =
    let (metas, error) = object_explicit_dependencies obj in
    let (found, errors) = resolve (object_metadata_from_unstructured obj) metas lookup in
    (found, annotation_errors error ++ errors)

-- `addEdge(obj, dep)` for each dependency
add_edges : Unstructured → List Unstructured → Edges → Edges
add_edges obj [] edges = edges
add_edges obj (dep ∷ deps) edges = add_edges obj deps (add_edge obj dep edges)

-- `addEdge(webhook, obj)` for each webhook
add_edges_to : Unstructured → List Unstructured → Edges → Edges
add_edges_to obj [] edges = edges
add_edges_to obj (webhook ∷ webhooks) edges = add_edges_to obj webhooks (add_edge webhook obj edges)

add_edge_if : Unstructured → Option Unstructured → Edges → Edges
add_edge_if obj none edges = edges
add_edge_if obj (some dep) edges = add_edge obj dep edges

or_nil : Option (List Unstructured) → List Unstructured
or_nil none = []
or_nil (some objs) = objs

-- The body of the second loop, on one entry of the lookup.
pub link : Lookups → ObjectMetadata × Unstructured → Edges → Edges × List BuildError
link maps (meta, obj) edges =
    let with_crd =
      add_edge_if obj (get group_kind_discrete (metadata_group_kind meta) maps.crds) edges in
    let with_namespace =
      add_edge_if obj (get str_discrete meta.namespace maps.namespaces) with_crd in
    let with_webhooks =
      add_edges_to obj (or_nil (get metadata_discrete meta maps.webhooks)) with_namespace in
    let (deps, errors) = dependendencies_for_obj obj maps.metadata_lookup in
    (add_edges obj deps with_webhooks, errors)

pub link_all : Lookups → List (ObjectMetadata × Unstructured) → Edges → Edges × List BuildError
link_all maps [] edges = (edges, [])
link_all maps (entry ∷ entries) edges =
    let (linked, errors) = link maps entry edges in
    let (all, later) = link_all maps entries linked in (all, errors ++ later)

abbrev no_lookups : Lookups
no_lookups = record { edges = []; crds = []; namespaces = []; webhooks = []; metadata_lookup = [] }

-- The graph, or the errors of all objects.
finish : Edges × List BuildError → Option DependencyGraph × List BuildError
finish (edges, []) = (some (record { edges = edges }), [])
finish (edges, e ∷ errors) = (none, e ∷ errors)

-- A CRD that is not valid is left out.
register_crd : Unstructured → Option GroupKind → Lookups → Lookups
register_crd obj none maps = maps
register_crd obj (some gk) maps = record maps { crds = put group_kind_discrete gk obj maps.crds }

module _ (crd_group_kind : Unstructured → Option GroupKind)
    (webhook_services : Unstructured → List (Option ServiceReference)) where
  pub register_kind : Unstructured → Lookups → Lookups
  register_kind obj maps =
      if is_crd obj
      then register_crd obj (crd_group_kind obj) maps
      else if is_namespace obj
      then record maps { namespaces = put str_discrete obj.name obj maps.namespaces }
      else if is_registration_webhook obj
      then record maps {
        webhooks = register obj (services_metadata (webhook_services obj)) maps.webhooks;
      }
      else maps

  -- The first loop.
  collect : List Unstructured → Lookups → Lookups
  collect [] maps = maps
  collect (obj ∷ objs) maps = collect objs (
      register_kind obj (record maps {
        edges = add_vertex obj maps.edges;
        metadata_lookup =
            put metadata_discrete (object_metadata_from_unstructured obj) obj maps.metadata_lookup;
      }))

  -- NewDependencyGraph; `range` gives the order of the lookup's entries.
  pub new_dependency_graph :
      (List (ObjectMetadata × Unstructured) → List (ObjectMetadata × Unstructured))
      → List Unstructured
      → Option DependencyGraph × List BuildError
  new_dependency_graph range [] = (some (record { edges = [] }), [])
  new_dependency_graph range (obj ∷ objs) =
      let maps = collect (obj ∷ objs) no_lookups in
      finish (link_all maps (range maps.metadata_lookup) maps.edges)
