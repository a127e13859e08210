-- ===== src/Resource/Build/Within.antt =====
-- The vertices that the links add are objects of the lookups.
pub mod Collected
use mathlib.Core.List.{Mem, mem-cons_self, mem-cons_of_mem, Perm}
use mathlib.Core.List.Perm
use jpl.Base.{
  ℕ, Str, str_discrete, List, [], ◌∷◌, ◌++◌, Option, none, some, Bool, true, false, ◌≡◌, refl, sym,
  ap, subst, arith, All, Bool-cases, inl, inr, if◌then◌else◌, ite, ◌||◌, All-append, Option-cases,
  ◌∙◌,
}
use jpl.Base.Maps.{get, put, keys}
use jpl.Base.Sets.{contains, contains_of_mem, contains-insert, insert}
use jpl.Base.Keys.{keys-put}
use jpl.Base.Values.{Values, Values-put, Values-get, Values-of_perm}
use jpl.Resource.Object.{
  GroupKind, ObjectMetadata, Unstructured, object_discrete, group_kind_discrete, metadata_discrete,
  metadata_group_kind, object_metadata_from_unstructured, is_crd, is_namespace,
  is_registration_webhook,
}
use jpl.Resource.Graph.{Edges, DependencyGraph, add_vertex, add_edge, targets}
use jpl.Resource.Build.{
  ServiceReference, BuildError, Lookups, services_metadata, register, resolve,
  dependendencies_for_obj, add_edges, add_edges_to, add_edge_if, or_nil, link, link_all, finish,
  no_lookups, register_crd, register_kind, collect, new_dependency_graph,
}
use jpl.Resource.Build.WellFormed.{contains-add_vertex}

module _ (P : Unstructured → Type 0) where
  pub IsInside : Edges → Type 0
  IsInside es = (u : Unstructured) → contains object_discrete u (keys es) ≡ true → P u

  -- Lookups that hold such objects only.
  pub record IsWithin (maps : Lookups) : Type 0 where
    pub edges : IsInside maps.edges
    pub crds : Values P maps.crds
    pub namespaces : Values P maps.namespaces
    pub webhooks : Values (All P) maps.webhooks
    pub metadata_lookup : Values P maps.metadata_lookup

  of_either :
      (u v : Unstructured) (l : List Unstructured)
      → P v
      → (contains object_discrete u l ≡ true → P u)
      → (contains object_discrete u l || contains object_discrete u (v ∷ [])) ≡ true
      → P u
  unfolding contains
  of_either u v l p h e = elim (object_discrete u v) [
    | yes q ↦ subst P (sym q) p
    | no n ↦ h (ground arith)
  ]

  pub add_vertex-IsInside :
      (v : Unstructured) (es : Edges) → P v → IsInside es → IsInside (add_vertex v es)
  unfolding IsInside
  add_vertex-IsInside v es p h u e =
      of_either u v (keys es) p (h u) (sym (contains-add_vertex v u es) ∙ e)

  add_edge-IsInside :
      (v w : Unstructured) (es : Edges) → P v → P w → IsInside es → IsInside (add_edge v w es)
  unfolding IsInside add_edge
  add_edge-IsInside v w es p q h u e =
      let both = add_vertex w (add_vertex v es) in
      let s = insert object_discrete w (targets v both) in
      of_either u v (keys both) p
        (add_vertex-IsInside w (add_vertex v es) q (add_vertex-IsInside v es p h) u)
        (sym (contains-insert object_discrete v u (keys both))
          ∙ ap (contains object_discrete u) (sym (keys-put object_discrete v s both))
          ∙ e)

  add_edge_if-IsInside :
      (v : Unstructured) (o : Option Unstructured) (es : Edges)
      → P v
      → ((w : Unstructured) → o ≡ some w → P w)
      → IsInside es
      → IsInside (add_edge_if v o es)
  unfolding add_edge_if
  add_edge_if-IsInside v none es p q h = h
  add_edge_if-IsInside v (some w) es p q h = add_edge-IsInside v w es p (q w refl) h

  add_edges-IsInside :
      (v : Unstructured) (ws : List Unstructured) (es : Edges)
      → P v
      → All P ws
      → IsInside es
      → IsInside (add_edges v ws es)
  unfolding add_edges
  add_edges-IsInside v [] es p q h = h
  add_edges-IsInside v (w ∷ ws) es p q h =
      add_edges-IsInside v ws (add_edge v w es) p q.1 (add_edge-IsInside v w es p q.0 h)

  add_edges_to-IsInside :
      (v : Unstructured) (ws : List Unstructured) (es : Edges)
      → P v
      → All P ws
      → IsInside es
      → IsInside (add_edges_to v ws es)
  unfolding add_edges_to
  add_edges_to-IsInside v [] es p q h = h
  add_edges_to-IsInside v (w ∷ ws) es p q h =
      add_edges_to-IsInside v ws (add_edge w v es) p q.1 (add_edge-IsInside w v es q.0 p h)

  or_nil-All :
      (o : Option (List Unstructured))
      → ((ws : List Unstructured) → o ≡ some ws → All P ws)
      → All P (or_nil o)
  unfolding or_nil
  or_nil-All none h = tt
  or_nil-All (some ws) h = h ws refl

  resolve-All :
      (from : ObjectMetadata) (tos : List ObjectMetadata)
      (lookup : List (ObjectMetadata × Unstructured))
      → Values P lookup
      → All P (resolve from tos lookup).0
  unfolding resolve
  resolve-All from [] lookup h = tt
  resolve-All from (to ∷ tos) lookup h = elim (Option-cases (get metadata_discrete to lookup)) [
    | inl e ↦ rw (e, resolve) (resolve-All from tos lookup h)
    | inr (v, e) ↦
        rw (e, resolve)
          (Values-get metadata_discrete P to v lookup h e, resolve-All from tos lookup h)
  ]

  link-IsInside :
      (maps : Lookups) (entry : ObjectMetadata × Unstructured) (es : Edges)
      → IsWithin maps
      → P entry.1
      → IsInside es
      → IsInside (link maps entry es).0
  unfolding link dependendencies_for_obj
  link-IsInside maps (meta, obj) es within p h =
      add_edges-IsInside obj _ _ p
        (resolve-All (object_metadata_from_unstructured obj) _ maps.metadata_lookup
          within.metadata_lookup)
        (add_edges_to-IsInside obj _ _ p
          (or_nil-All _
            (λ ws e. Values-get metadata_discrete (All P) meta ws maps.webhooks within.webhooks e))
          (add_edge_if-IsInside obj _ _ p
            (λ w e. Values-get str_discrete P meta.namespace w maps.namespaces within.namespaces e)
            (add_edge_if-IsInside obj _ es p
              (λ w e.
                Values-get group_kind_discrete P (metadata_group_kind meta) w maps.crds within.crds
                  e)
              h)))

  pub link_all-IsInside :
      (maps : Lookups) (entries : List (ObjectMetadata × Unstructured)) (es : Edges)
      → IsWithin maps
      → Values P entries
      → IsInside es
      → IsInside (link_all maps entries es).0
  unfolding link_all
  link_all-IsInside maps [] es within p h = h
  link_all-IsInside maps (entry ∷ entries) es within p h =
      link_all-IsInside maps entries (link maps entry es).0 within p.1
        (link-IsInside maps entry es within p.0 h)
