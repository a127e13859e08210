-- ===== src/Resource/Less.antt =====
-- pkg/resource/sort.go: the order of resources that `sort.Sort(SortableObjects(...))` uses.
pub mod Order
pub mod Table
use jpl.Base.{
  ℕ, suc, ◌+◌, Str, codes, str_discrete, str_lt, Bool, List, [], ◌∷◌, ite, length, Option, none,
  some,
}
use Prim.Native.String.{String}
use jpl.Base.Int.{ℤ, pos, sub_ℕ, ltb_ℤ, ℤ_discrete}
use jpl.Base.Maps.{get, put}
use jpl.Resource.Object.{
  GroupKind, ObjectMetadata, Unstructured, group_kind_discrete, metadata_group_kind,
  object_metadata_from_unstructured,
}

abbrev in_group : String → String → GroupKind
in_group group kind = record { group = codes group; kind = codes kind }

-- orderList
abbrev pub order_list : List GroupKind
order_list =
    in_group "" "Namespace"
    ∷ in_group "" "ResourceQuota"
    ∷ in_group "" "LimitRange"
    ∷ in_group "apiextensions.k8s.io" "CustomResourceDefinition"
    ∷ in_group "storage.k8s.io" "StorageClass"
    ∷ in_group "networking.k8s.io" "IngressClass"
    ∷ in_group "scheduling.k8s.io" "PriorityClass"
    ∷ in_group "gateway.networking.k8s.io" "GatewayClass"
    ∷ in_group "" "ServiceAccount"
    ∷ in_group "rbac.authorization.k8s.io" "Role"
    ∷ in_group "rbac.authorization.k8s.io" "ClusterRole"
    ∷ in_group "rbac.authorization.k8s.io" "RoleBinding"
    ∷ in_group "rbac.authorization.k8s.io" "ClusterRoleBinding"
    ∷ in_group "" "Secret"
    ∷ in_group "" "ConfigMap"
    ∷ in_group "" "PersistentVolume"
    ∷ in_group "" "PersistentVolumeClaim"
    ∷ in_group "networking.k8s.io" "NetworkPolicy"
    ∷ in_group "" "ReplicationController"
    ∷ in_group "apps" "StatefulSet"
    ∷ in_group "apps" "Deployment"
    ∷ in_group "apps" "Daemonset"
    ∷ in_group "batch" "CronJob"
    ∷ in_group "batch" "Job"
    ∷ in_group "" "Pod"
    ∷ in_group "" "Service"
    ∷ in_group "" "Endpoints"
    ∷ in_group "discovery.k8s.io" "EndpointSlice"
    ∷ in_group "networking.k8s.io" "Ingress"
    ∷ in_group "gateway.networking.k8s.io" "Gateway"
    ∷ in_group "gateway.networking.k8s.io" "HTTPRoute"
    ∷ in_group "gateway.networking.k8s.io" "ReferenceGrant"
    ∷ in_group "policy" "PodDisruptionBudget"
    ∷ in_group "autoscaling" "HorizontalPodAutoscaler"
    ∷ in_group "autoscaling.k8s.io" "VerticalPodAutoscaler"
    ∷ in_group "apiregistration.k8s.io" "APIService"
    ∷ in_group "admissionregistration.k8s.io" "MutatingWebhookConfiguration"
    ∷ in_group "admissionregistration.k8s.io" "ValidatingWebhookConfiguration"
    ∷ []

-- The loop that fills the map: the kind at index `i` gets `-orderListLength + i`.
fill : ℕ → ℕ → List GroupKind → List (GroupKind × ℤ) → List (GroupKind × ℤ)
fill total i [] m = m
fill total i (n ∷ ns) m = fill total (suc i) ns (put group_kind_discrete n (sub_ℕ i total) m)

default_group_kind_sort_map : List (GroupKind × ℤ)
unfolding fill put group_kind_discrete
default_group_kind_sort_map = fill (length order_list) 0 order_list []

-- A missing key reads as 0.
or_zero : Option ℤ → ℤ
or_zero none = pos 0
or_zero (some i) = i

-- `defaultGroupKindSortMap[gk]`
unfoldable pub sort_index : GroupKind → ℤ
unfolding default_group_kind_sort_map get or_zero
sort_index gk = or_zero (get group_kind_discrete gk default_group_kind_sort_map)

-- lessGK
unfoldable pub less_gk : GroupKind → GroupKind → Bool
unfolding ℤ_discrete str_discrete str_lt
less_gk i j =
    ite (ℤ_discrete (sort_index i) (sort_index j))
      (ite (str_discrete i.group j.group) (str_lt i.kind j.kind) (str_lt i.group j.group))
      (ltb_ℤ (sort_index i) (sort_index j))

unfoldable pub less : ObjectMetadata → ObjectMetadata → Bool
unfolding group_kind_discrete str_discrete str_lt
less i j =
    ite (group_kind_discrete (metadata_group_kind i) (metadata_group_kind j))
      (ite (str_discrete i.namespace j.namespace) (str_lt i.name j.name)
        (str_lt i.namespace j.namespace))
      (less_gk (metadata_group_kind i) (metadata_group_kind j))

-- SortableObjects.Less
unfoldable pub less_objects : Unstructured → Unstructured → Bool
unfolding less object_metadata_from_unstructured
less_objects a b = less (object_metadata_from_unstructured a) (object_metadata_from_unstructured b)
