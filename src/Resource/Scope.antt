-- ===== src/Resource/Scope.antt =====
-- pkg/resource/scope.go: the scope of a resource, from the mapper or from the CRDs that come along.
-- The mapper is a parameter, and so is the conversion of a CRD, which fails on one that is not valid.
use jpl.Base.{
  Str, codes, str_discrete, List, [], ◌∷◌, ◌++◌, Option, none, some, Bool, ◌&&◌, if◌then◌else◌,
}
use jpl.Base.Sets.{is_same}
use jpl.Remote.{Error, Outcome, ok, err, other_reason, is_no_match}
use jpl.Resource.Object.{GroupKind, GroupVersionKind, Unstructured, group_kind_of}

pub data RestScope : Type 0 where
  rest_scope_root : RestScope
  rest_scope_namespace : RestScope

-- What is read of a typed CRD; a scope is `none` where it is neither of the two.
pub record TypedCrd : Type 0 where
  pub group : Str
  pub kind : Str
  pub versions : List Str
  pub scope : Option RestScope

-- The mapper by group, kind and version, the typed CRD, and the quoted text of a kind.
pub record ScopeApi : Type 0 where
  pub rest_mapping : GroupKind → Str → Outcome RestScope
  pub to_crd : Unstructured → Option TypedCrd
  pub gvk_quoted : GroupVersionKind → Str

-- `gvk == crdGK.WithVersion(version.Name)`
abbrev pub is_version : GroupVersionKind → TypedCrd → Str → Bool
is_version gvk crd version =
    is_same str_discrete gvk.group crd.group
    && is_same str_discrete gvk.kind crd.kind
    && is_same str_discrete gvk.version version

unfoldable pub or_next : Option RestScope → Option RestScope → Option RestScope
or_next (some s) next = some s
or_next none next = next

-- The loop over the versions.
unfoldable pub in_versions : GroupVersionKind → TypedCrd → List Str → Option RestScope
in_versions gvk crd [] = none
in_versions gvk crd (v ∷ vs) =
    let rest = in_versions gvk crd vs in
    if is_version gvk crd v then or_next crd.scope rest else rest

unfoldable pub in_crd : GroupVersionKind → Option TypedCrd → Option RestScope
in_crd gvk none = none
in_crd gvk (some crd) = in_versions gvk crd crd.versions

-- UnknownResourceTypeError
unfoldable pub unknown_resource_type_error : Str → Error
unknown_resource_type_error quoted = record {
  text = codes "unknown resource type: " ++ quoted;
  reason = other_reason;
}

module _ (api : ScopeApi) where
  -- The loop over the CRDs.
  unfoldable pub in_crds : GroupVersionKind → List Unstructured → Option RestScope
  in_crds gvk [] = none
  in_crds gvk (crd ∷ crds) = or_next (in_crd gvk (api.to_crd crd)) (in_crds gvk crds)

  unfoldable pub found_scope : GroupVersionKind → Option RestScope → Outcome RestScope
  found_scope gvk (some s) = ok s
  found_scope gvk none = err (unknown_resource_type_error (api.gvk_quoted gvk))

  unfoldable pub or_crds :
      GroupVersionKind → List Unstructured → Outcome RestScope → Outcome RestScope
  or_crds gvk crds (ok s) = ok s
  or_crds gvk crds (err e) = if is_no_match e then found_scope gvk (in_crds gvk crds) else err e

  -- Scope
  unfoldable pub scope : Unstructured → List Unstructured → Outcome RestScope
  scope obj crds = or_crds obj.gvk crds (api.rest_mapping (group_kind_of obj) obj.gvk.version)
