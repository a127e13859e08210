-- ===== src/Resource/Build/Within/Collected.antt =====
-- Every vertex of the graph is one of the objects that it is made for.
use mathlib.Core.List.{Mem, mem-cons_self, mem-cons_of_mem, Perm}
use jpl.Base.{
  str_discrete, List, [], ◌∷◌, Option, none, some, true, ◌≡◌, refl, ap, All, Bool-cases, inl, inr,
  All-append, ◌∙◌,
}
use jpl.Base.Maps.{get, keys}
use jpl.Base.Sets.{contains, contains_of_mem}
use jpl.Base.Values.{Values, Values-put, Values-get, Values-of_perm}
use jpl.Resource.Object.{
  GroupKind, ObjectMetadata, Unstructured, object_discrete, group_kind_discrete, metadata_discrete,
  object_metadata_from_unstructured, is_crd, is_namespace, is_registration_webhook,
}
use jpl.Resource.Graph.{Edges, DependencyGraph}
use jpl.Resource.Build.{
  ServiceReference, BuildError, Lookups, register, finish, no_lookups, register_crd, register_kind,
  collect, new_dependency_graph,
}
use jpl.Resource.Build.Within.{IsInside, IsWithin, add_vertex-IsInside, link_all-IsInside}

module _ (P : Unstructured → Type 0) where
  register-All :
      (obj : Unstructured) (svcs : List ObjectMetadata)
      (webhooks : List (ObjectMetadata × List Unstructured))
      → P obj
      → Values (All P) webhooks
      → Values (All P) (register obj svcs webhooks)
  unfolding register
  register-All obj [] webhooks p h = h
  register-All obj (svc ∷ svcs) webhooks p h = register-All obj svcs _ p (
      Values-put metadata_discrete (All P) svc _ webhooks
        (All-append P _ (obj ∷ []) (known (get metadata_discrete svc webhooks) refl) (p, tt)) h)
    where
      known :
          (o : Option (List Unstructured))
          → get metadata_discrete svc webhooks ≡ o
          → All P (elim o as (λ o'. List Unstructured) [ none ↦ [] | some objs ↦ objs ])
      known none e = tt
      known (some objs) e = Values-get metadata_discrete (All P) svc objs webhooks h e

  register_crd-IsWithin :
      (obj : Unstructured) (o : Option GroupKind) (maps : Lookups)
      → P obj
      → IsWithin P maps
      → IsWithin P (register_crd obj o maps)
  unfolding register_crd
  register_crd-IsWithin obj none maps p h = h
  register_crd-IsWithin obj (some gk) maps p h = record {
    edges = h.edges;
    crds = Values-put group_kind_discrete P gk obj maps.crds p h.crds;
    namespaces = h.namespaces;
    webhooks = h.webhooks;
    metadata_lookup = h.metadata_lookup;
  }

  module _ (crd_group_kind : Unstructured → Option GroupKind)
      (webhook_services : Unstructured → List (Option ServiceReference)) where
    register_kind-IsWithin :
        (obj : Unstructured) (maps : Lookups)
        → P obj
        → IsWithin P maps
        → IsWithin P (register_kind crd_group_kind webhook_services obj maps)
    unfolding register_kind
    register_kind-IsWithin obj maps p h = elim (Bool-cases (is_crd obj)) [
      | inl e ↦ rw e (register_crd-IsWithin obj (crd_group_kind obj) maps p h)
      | inr e ↦ rw e (elim (Bool-cases (is_namespace obj)) [
        | inl f ↦ rw f (record {
          edges = h.edges;
          crds = h.crds;
          namespaces = Values-put str_discrete P obj.name obj maps.namespaces p h.namespaces;
          webhooks = h.webhooks;
          metadata_lookup = h.metadata_lookup;
        })
        | inr f ↦ rw f (elim (Bool-cases (is_registration_webhook obj)) [
          | inl k ↦ rw k (record {
            edges = h.edges;
            crds = h.crds;
            namespaces = h.namespaces;
            webhooks = register-All obj _ maps.webhooks p h.webhooks;
            metadata_lookup = h.metadata_lookup;
          })
          | inr k ↦ rw k h
        ])
      ])
    ]

    collect-IsWithin :
        (objs : List Unstructured) (maps : Lookups)
        → All P objs
        → IsWithin P maps
        → IsWithin P (collect crd_group_kind webhook_services objs maps)
    unfolding collect
    collect-IsWithin [] maps p h = h
    collect-IsWithin (obj ∷ objs) maps p h = collect-IsWithin objs _ p.1 (
        register_kind-IsWithin obj _ p.0 (record {
          edges = add_vertex-IsInside P obj maps.edges p.0 h.edges;
          crds = h.crds;
          namespaces = h.namespaces;
          webhooks = h.webhooks;
          metadata_lookup =
              Values-put metadata_discrete P (object_metadata_from_unstructured obj) obj
                maps.metadata_lookup p.0 h.metadata_lookup;
        }))

abbrev IsOneOf : List Unstructured → Unstructured → Type 0
IsOneOf objs u = contains object_discrete u objs ≡ true

All-IsOneOf :
    (objs more : List Unstructured)
    → ((u : Unstructured) → Mem u more → IsOneOf objs u)
    → All (IsOneOf objs) more
All-IsOneOf objs [] h = tt
All-IsOneOf objs (obj ∷ more) h =
    (h obj mem-cons_self, All-IsOneOf objs more (λ u m. h u (mem-cons_of_mem obj m)))

finish-edges :
    (built : Edges × List BuildError) (g : DependencyGraph)
    → (finish built).0 ≡ some g
    → built.0 ≡ g.edges
unfolding finish
finish-edges (edges, []) g e = ap edges_of (cc)
  where
    edges_of : DependencyGraph → Edges
    edges_of d = d.edges
finish-edges (edges, error ∷ errors) g e = absurd (cc)

module _ (crd_group_kind : Unstructured → Option GroupKind)
    (webhook_services : Unstructured → List (Option ServiceReference))
    (range : List (ObjectMetadata × Unstructured) → List (ObjectMetadata × Unstructured))
    (permutes : (m : List (ObjectMetadata × Unstructured)) → Perm (range m) m) where
  nothing-IsWithin : (P : Unstructured → Type 0) → IsWithin P no_lookups
  unfolding IsInside contains
  nothing-IsWithin P = record {
    edges = λ u e. absurd (cc);
    crds = tt;
    namespaces = tt;
    webhooks = tt;
    metadata_lookup = tt;
  }

  -- Every vertex of a graph that NewDependencyGraph returns is one of the objects.
  pub new_dependency_graph-within :
      (objs : List Unstructured) (g : DependencyGraph) (u : Unstructured)
      → (new_dependency_graph crd_group_kind webhook_services range objs).0 ≡ some g
      → contains object_discrete u (keys g.edges) ≡ true
      → contains object_discrete u objs ≡ true
  unfolding new_dependency_graph IsInside finish
  new_dependency_graph-within [] g u e m =
      ap (λ es. contains object_discrete u (keys es)) (finish-edges ([], []) g e) ∙ m
  new_dependency_graph-within (obj ∷ objs) g u e m =
      let all = obj ∷ objs in
      let maps = collect crd_group_kind webhook_services all no_lookups in
      let within =
        collect-IsWithin (IsOneOf all) crd_group_kind webhook_services all no_lookups
          (All-IsOneOf all all (λ v n. contains_of_mem object_discrete v all n))
          (nothing-IsWithin (IsOneOf all)) in
      let inside =
        link_all-IsInside (IsOneOf all) maps (range maps.metadata_lookup) maps.edges within
          (Values-of_perm (λ v. contains object_discrete v all) (permutes maps.metadata_lookup)
            within.metadata_lookup)
          within.edges in
      inside u (ap (λ es. contains object_discrete u (keys es)) (finish-edges _ g e) ∙ m)
