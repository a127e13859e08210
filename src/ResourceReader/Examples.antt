-- ===== src/ResourceReader/Examples.antt =====
-- A namespaced object without a namespace, one with its own, and one of the cluster.
use jpl.Base.{codes, str_discrete, List, [], ◌∷◌, some, Bool, true, false, refl}
use jpl.Base.Sets.{is_same}
use jpl.Remote.{ok, err, no_match}
use jpl.Resource.Object.{GroupKind, Unstructured, find_crds}
use jpl.Resource.Scope.{
  rest_scope_root, rest_scope_namespace, ScopeApi, scope, or_crds, found_scope, in_crds, in_crd,
  in_versions, or_next,
}
use jpl.ResourceReader.{ReaderConfigs, set_namespace}
use jpl.ResourceReader.Placed.{ArePlaced, set_namespace-ArePlaced}

abbrev is_core : GroupKind → Bool
is_core gk = is_same str_discrete gk.kind (codes "ConfigMap")

abbrev is_definition : GroupKind → Bool
is_definition gk = is_same str_discrete gk.kind (codes "CustomResourceDefinition")

abbrev mapper : ScopeApi
mapper = record {
  rest_mapping = λ gk version. elim (is_core gk) [
    | true ↦ ok rest_scope_namespace
    | false ↦ elim (is_definition gk) [
      | true ↦ ok rest_scope_root
      | false ↦ err (record { text = codes "no matches"; reason = no_match })
    ]
  ];
  to_crd = λ obj. some (record {
    group = codes "example.com";
    kind = codes "Cluster";
    versions = codes "v1" ∷ [];
    scope = some rest_scope_root;
  });
  gvk_quoted = λ gvk. gvk.kind;
}

abbrev configs : ReaderConfigs
configs = record { mapper = mapper; namespace = codes "apps"; enforce_namespace = false }

abbrev here : Unstructured
here = record {
  address = 1;
  gvk = record { group = []; version = codes "v1"; kind = codes "ConfigMap" };
  name = codes "here";
  namespace = [];
  annotations = [];
}

abbrev there : Unstructured
there = record here { address = 2; namespace = codes "other" }

abbrev crd : Unstructured
crd = record {
  address = 3;
  gvk = record {
    group = codes "apiextensions.k8s.io";
    version = codes "v1";
    kind = codes "CustomResourceDefinition";
  };
  name = codes "clusters.example.com";
  namespace = [];
  annotations = [];
}

abbrev cluster : Unstructured
cluster = record {
  address = 4;
  gvk = record { group = codes "example.com"; version = codes "v1"; kind = codes "Cluster" };
  name = codes "wide";
  namespace = [];
  annotations = [];
}

abbrev objects : List Unstructured
objects = here ∷ there ∷ crd ∷ cluster ∷ []

set_namespace-ArePlaced_example :
    ArePlaced
      (λ s. s)
      configs
      (find_crds objects)
      objects
      (set_namespace (λ s. s) configs objects).1
unfolding set_namespace jpl.ResourceReader.unless_off jpl.ResourceReader.place_each
    jpl.ResourceReader.and_next jpl.ResourceReader.place_object jpl.ResourceReader.namespaced
    jpl.ResourceReader.is_refused jpl.ResourceReader.clustered scope or_crds found_scope in_crds
    in_crd in_versions or_next find_crds
set_namespace-ArePlaced_example = set_namespace-ArePlaced (λ s. s) configs objects refl refl
