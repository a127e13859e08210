-- ===== src/Resource/Object.antt =====
-- pkg/resource/resourcemetadata.go, unstructured.go and errors.go: what identifies a resource.
use mathlib.Core.Bool.{decide}
use jpl.Base.{
  ℕ, ℕ_discrete, Str, codes, str_discrete, ◌≡◌, ap, Bool, true, false, ◌||◌, List, [], ◌∷◌, ◌++◌,
  dec_both, dec_pair, list_discrete,
}

pub record GroupKind : Type 0 where
  pub group : Str
  pub kind : Str

pub record GroupVersionKind : Type 0 where
  pub group : Str
  pub version : Str
  pub kind : Str

pub record ObjectMetadata : Type 0 where
  pub name : Str
  pub namespace : Str
  pub group : Str
  pub kind : Str

-- A pointer to an unstructured object: its address, and what the getters of the object answer.
pub record Unstructured : Type 0 where
  pub address : ℕ
  pub gvk : GroupVersionKind
  pub name : Str
  pub namespace : Str
  pub annotations : List (Str × Str)

pub record Dependency : Type 0 where
  pub from : ObjectMetadata
  pub to : ObjectMetadata

pub GroupKind-ext : {a b : GroupKind} → a.group ≡ b.group → a.kind ≡ b.kind → a ≡ b
GroupKind-ext p q = λ i. record { group = p i; kind = q i }

unfoldable pub group_kind_discrete : Discrete GroupKind
unfolding str_discrete
group_kind_discrete a b =
    dec_both (str_discrete a.group b.group) (str_discrete a.kind b.kind) GroupKind-ext
      (λ e. ap (λ (x : GroupKind). x.group) e) (λ e. ap (λ (x : GroupKind). x.kind) e)

abbrev pub SameId : ObjectMetadata → ObjectMetadata → Type 0
SameId a b = (a.name ≡ b.name) × (a.namespace ≡ b.namespace)

abbrev pub SameGroupKind : ObjectMetadata → ObjectMetadata → Type 0
SameGroupKind a b = (a.group ≡ b.group) × (a.kind ≡ b.kind)

pub ObjectMetadata-ext : {a b : ObjectMetadata} → SameId a b → SameGroupKind a b → a ≡ b
ObjectMetadata-ext (p, q) (r, s) =
    λ i. record { name = p i; namespace = q i; group = r i; kind = s i }

same_id : (a b : ObjectMetadata) → Dec (SameId a b)
unfolding str_discrete
same_id a b = dec_pair (str_discrete a.name b.name) (str_discrete a.namespace b.namespace)

same_group_kind : (a b : ObjectMetadata) → Dec (SameGroupKind a b)
unfolding str_discrete
same_group_kind a b = dec_pair (str_discrete a.group b.group) (str_discrete a.kind b.kind)

unfoldable pub metadata_discrete : Discrete ObjectMetadata
unfolding same_id same_group_kind
metadata_discrete a b =
    dec_both (same_id a b) (same_group_kind a b) ObjectMetadata-ext
      (λ e. (ap (λ (x : ObjectMetadata). x.name) e, ap (λ (x : ObjectMetadata). x.namespace) e))
      (λ e. (ap (λ (x : ObjectMetadata). x.group) e, ap (λ (x : ObjectMetadata). x.kind) e))

pub GroupVersionKind-ext :
    {a b : GroupVersionKind}
    → a.group ≡ b.group
    → (a.version ≡ b.version) × (a.kind ≡ b.kind)
    → a ≡ b
GroupVersionKind-ext p q = λ i. record { group = p i; version = q.0 i; kind = q.1 i }

pub Unstructured-ext :
    {a b : Unstructured}
    → (a.address ≡ b.address) × (a.gvk ≡ b.gvk)
    → ((a.name ≡ b.name) × (a.namespace ≡ b.namespace)) × (a.annotations ≡ b.annotations)
    → a ≡ b
Unstructured-ext p q = λ i. record {
  address = p.0 i;
  gvk = p.1 i;
  name = (q.0).0 i;
  namespace = (q.0).1 i;
  annotations = q.1 i;
}

gvk_discrete : Discrete GroupVersionKind
unfolding str_discrete
gvk_discrete a b =
    dec_both (str_discrete a.group b.group)
      (dec_pair (str_discrete a.version b.version) (str_discrete a.kind b.kind))
      GroupVersionKind-ext (λ e. ap (λ (x : GroupVersionKind). x.group) e)
      (λ e. (ap (λ (x : GroupVersionKind). x.version) e, ap (λ (x : GroupVersionKind). x.kind) e))

annotation_discrete : Discrete (Str × Str)
unfolding str_discrete
annotation_discrete a b =
    dec_both (str_discrete a.0 b.0) (str_discrete a.1 b.1) (λ p q. λ i. (p i, q i)) (λ e i. (e i).0)
      (λ e i. (e i).1)

-- Equality of pointers: one address holds one object.
unfoldable pub object_discrete : Discrete Unstructured
unfolding gvk_discrete annotation_discrete list_discrete ℕ_discrete
object_discrete a b =
    dec_both (dec_pair (ℕ_discrete a.address b.address) (gvk_discrete a.gvk b.gvk))
      (dec_pair (dec_pair (str_discrete a.name b.name) (str_discrete a.namespace b.namespace))
        (list_discrete annotation_discrete a.annotations b.annotations))
      Unstructured-ext
      (λ e. (ap (λ (x : Unstructured). x.address) e, ap (λ (x : Unstructured). x.gvk) e))
      (λ e. (
        (ap (λ (x : Unstructured). x.name) e, ap (λ (x : Unstructured). x.namespace) e),
        ap (λ (x : Unstructured). x.annotations) e,
      ))

-- ObjectMetadataFromUnstructured
unfoldable pub object_metadata_from_unstructured : Unstructured → ObjectMetadata
object_metadata_from_unstructured obj = record {
  name = obj.name;
  namespace = obj.namespace;
  group = obj.gvk.group;
  kind = obj.gvk.kind;
}

-- GroupVersionKind().GroupKind()
abbrev pub group_kind_of : Unstructured → GroupKind
group_kind_of obj = record { group = obj.gvk.group; kind = obj.gvk.kind }

abbrev pub metadata_group_kind : ObjectMetadata → GroupKind
metadata_group_kind m = record { group = m.group; kind = m.kind }

abbrev pub crd_gk : GroupKind
crd_gk = record { group = codes "apiextensions.k8s.io"; kind = codes "CustomResourceDefinition" }

abbrev pub namespace_gk : GroupKind
namespace_gk = record { group = []; kind = codes "Namespace" }

abbrev pub validating_gk : GroupKind
validating_gk = record {
  group = codes "admissionregistration.k8s.io";
  kind = codes "ValidatingWebhookConfiguration";
}

abbrev pub mutating_gk : GroupKind
mutating_gk = record {
  group = codes "admissionregistration.k8s.io";
  kind = codes "MutatingWebhookConfiguration";
}

abbrev pub service_gk : GroupKind
service_gk = record { group = []; kind = codes "Service" }

unfoldable pub is_crd : Unstructured → Bool
unfolding decide group_kind_discrete
is_crd obj = decide (group_kind_discrete (group_kind_of obj) crd_gk)

unfoldable pub metadata_is_crd : ObjectMetadata → Bool
unfolding decide group_kind_discrete
metadata_is_crd m = decide (group_kind_discrete (metadata_group_kind m) crd_gk)

unfoldable pub is_namespace : Unstructured → Bool
unfolding decide group_kind_discrete
is_namespace obj = decide (group_kind_discrete (group_kind_of obj) namespace_gk)

unfoldable pub is_registration_webhook : Unstructured → Bool
unfolding decide group_kind_discrete
is_registration_webhook obj =
    decide (group_kind_discrete (group_kind_of obj) validating_gk)
    || decide (group_kind_discrete (group_kind_of obj) mutating_gk)

-- FindCRDs
unfoldable pub find_crds : List Unstructured → List Unstructured
unfolding is_crd
find_crds [] = []
find_crds (obj ∷ objs) = (elim (is_crd obj) [ true ↦ obj ∷ [] | false ↦ [] ]) ++ find_crds objs
