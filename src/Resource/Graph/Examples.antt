-- ===== src/Resource/Graph/Examples.antt =====
-- Runs of the graph on small inputs, and its theorems at a concrete graph.
use mathlib.Core.List.{
  Nodup, Perm, flatten, Nodup-cons, Nodup-nil, not-mem-nil, reverse, reverse_perm,
}
use mathlib.Core.List.Perm
use jpl.Base.{ℕ, ◌<◌, ◌≡◌, ◌↔◌, refl, codes, [], ◌∷◌, none, some}
use Prim.Native.String.{String}
use jpl.Base.Int.{ℤ_discrete}
use jpl.Base.Maps.{keys}
use jpl.Base.Sets.{contains, mem_of_contains, not_mem_of_contains}
use jpl.Base.Sorting.{HasDistinctKeys, HasDistinctKeys-of_Nodup}
use jpl.Resource.Object.{
  Unstructured, object_discrete, metadata_discrete, group_kind_discrete,
  object_metadata_from_unstructured,
}
use jpl.Resource.Less.{less, less_gk, sort_index}
use jpl.Resource.Graph.{
  Edges, DependencyGraph, targets, add_vertex, add_edge, SortedGroups, sorted_resource_groups,
}
use jpl.Resource.Graph.Layers.{IsOutcome}
use jpl.Resource.Graph.Residual.{all_placed}
use jpl.Resource.Graph.Loop.{sorted_resource_groups-IsOutcome}
use jpl.Resource.Graph.Topology.{layer_of, IsClosed, IsRanked}
use jpl.Resource.Graph.Sorted.{
  IsIteration, sorted_resource_groups-perm, sorted_resource_groups_order,
  sorted_resource_groups-error_iff, IsClosed-of_sets,
}
use jpl.Resource.Graph.Deterministic.{sorted_resource_groups-deterministic}

abbrev object : ℕ → String → String → String → Unstructured
object address group kind name = record {
  address = address;
  gvk = record { group = codes group; version = codes "v1"; kind = codes kind };
  name = codes name;
  namespace = [];
  annotations = [];
}

abbrev shop : Unstructured
shop = object 1 "" "Namespace" "shop"

abbrev web : Unstructured
web = object 2 "apps" "Deployment" "web"

abbrev settings : Unstructured
settings = object 3 "" "ConfigMap" "settings"

-- The deployment depends on the namespace and on the configuration, which depends on the namespace.
abbrev edges : Edges
edges = (web, shop ∷ settings ∷ []) ∷ (settings, shop ∷ []) ∷ (shop, []) ∷ []

abbrev graph : DependencyGraph
graph = record { edges = edges }

abbrev as_listed : Edges → Edges
as_listed es = es

program : Unit {0}
unfolding sorted_resource_groups object_discrete object_metadata_from_unstructured less less_gk
    sort_index ℤ_discrete group_kind_discrete metadata_discrete add_vertex add_edge layer_of
program = tt

abbrev sorted : SortedGroups
sorted = record {
  groups = (shop ∷ []) ∷ (settings ∷ []) ∷ (web ∷ []) ∷ [];
  error = none;
  graph = (web, []) ∷ (settings, []) ∷ (shop, []) ∷ [];
}

sort_graph : sorted_resource_groups as_listed graph ≡ some sorted
unfolding program
sort_graph = refl

build_graph :
    add_edge settings shop (add_edge web settings (add_edge web shop []))
    ≡ (web, shop ∷ settings ∷ []) ∷ (shop, []) ∷ (settings, shop ∷ []) ∷ []
unfolding program
build_graph = refl

as_listed-IsIteration : IsIteration as_listed
as_listed-IsIteration es = Perm.rfl

reverse-IsIteration : IsIteration reverse
reverse-IsIteration es = reverse_perm es

distinct : Nodup (keys edges)
unfolding program contains
distinct = Nodup-cons.1 (
  not_mem_of_contains object_discrete web (settings ∷ shop ∷ []) refl,
  Nodup-cons.1 (
    not_mem_of_contains object_discrete settings (shop ∷ []) refl,
    Nodup-cons.1 (not-mem-nil, Nodup-nil),
  ),
)

closed : IsClosed edges
unfolding program all_placed
closed = IsClosed-of_sets edges (refl, (refl, (refl, tt)))

sorted_resource_groups-IsOutcome_example :
    (r : SortedGroups) × (sorted_resource_groups as_listed graph ≡ some r)
    × IsOutcome edges [] r.groups r.error
sorted_resource_groups-IsOutcome_example =
    sorted_resource_groups-IsOutcome as_listed as_listed-IsIteration graph distinct

sorted_resource_groups-perm_example : Perm (shop ∷ settings ∷ web ∷ []) (keys edges)
unfolding flatten
sorted_resource_groups-perm_example =
    sorted_resource_groups-perm as_listed graph as_listed-IsIteration distinct sort_graph refl

sorted_resource_groups_order_example :
    (layer_of settings sorted.groups < layer_of web sorted.groups)
    × (layer_of web sorted.groups < 3)
unfolding program flatten targets contains
sorted_resource_groups_order_example =
    sorted_resource_groups_order as_listed graph web settings as_listed-IsIteration distinct
      sort_graph (mem_of_contains object_discrete web (shop ∷ settings ∷ web ∷ []) refl)
      (mem_of_contains object_discrete settings (shop ∷ settings ∷ []) refl)

sorted_resource_groups-error_iff_example :
    (sorted.error ≡ none) ↔ ((rank : Unstructured → ℕ) × IsRanked rank edges)
sorted_resource_groups-error_iff_example =
    sorted_resource_groups-error_iff as_listed graph as_listed-IsIteration distinct closed
      sort_graph

sort_reversed : sorted_resource_groups reverse graph ≡ some sorted
unfolding program
sort_reversed = refl

distinct_ids : HasDistinctKeys object_metadata_from_unstructured (keys edges)
unfolding program contains
distinct_ids =
    HasDistinctKeys-of_Nodup object_discrete object_metadata_from_unstructured (keys edges) (
      Nodup-cons.1 (
        not_mem_of_contains metadata_discrete _ _ refl,
        Nodup-cons.1
            (not_mem_of_contains metadata_discrete _ _ refl, Nodup-cons.1 (not-mem-nil, Nodup-nil)),
      ))

sorted_resource_groups-deterministic_example :
    (sorted.groups ≡ sorted.groups) × ((sorted.error ≡ none) ↔ (sorted.error ≡ none))
sorted_resource_groups-deterministic_example =
    sorted_resource_groups-deterministic as_listed reverse graph as_listed-IsIteration
      reverse-IsIteration distinct distinct_ids sort_graph sort_reversed
