-- ===== src/Resource/Depends/Examples.antt =====
-- Runs of the annotation's parser and printer, and their theorems at concrete references.
use jpl.Base.{
  Str, codes, str_discrete, split, join, trim_space, [], ◌∷◌, none, some, ◌≡◌, refl, arith,
}
use jpl.Base.Maps.{get, put}
use jpl.Resource.Object.{ObjectMetadata, Unstructured, object_metadata_from_unstructured}
use jpl.Resource.Depends.{
  ok, err, unexpected_string, unexpected_field_composition, parse_fields,
  parse_dependency_object_metadata, unmarshal_parts, unmarshal_depedencies_string,
  format_dependency_object_metadata, marshal_parts, marshal_depedencies_string,
  object_explicit_dependencies, set_object_explicit_dependencies,
}
use jpl.Resource.Depends.RoundTrip.{IsReference, unmarshal-marshal, explicit_dependencies-set}

abbrev role : ObjectMetadata
role = record {
  name = codes "edit";
  namespace = [];
  group = codes "rbac.authorization.k8s.io";
  kind = codes "ClusterRole";
}

abbrev web : ObjectMetadata
web = record {
  name = codes "web";
  namespace = codes "shop";
  group = codes "apps";
  kind = codes "Deployment";
}

abbrev job : Unstructured
job = record {
  address = 1;
  gvk = record { group = codes "batch"; version = codes "v1"; kind = codes "Job" };
  name = codes "migrate";
  namespace = codes "shop";
  annotations = (codes "team", codes "store") ∷ [];
}

program : Unit {0}
unfolding parse_fields parse_dependency_object_metadata unmarshal_parts unmarshal_depedencies_string
    format_dependency_object_metadata marshal_parts marshal_depedencies_string str_discrete split
    join trim_space get put object_explicit_dependencies set_object_explicit_dependencies
program = tt

marshal_two :
    marshal_depedencies_string (role ∷ web ∷ [])
    ≡ ok (codes "rbac.authorization.k8s.io/ClusterRole/edit,apps/namespaces/shop/Deployment/web")
unfolding program
marshal_two = refl

unmarshal_spaces :
    unmarshal_depedencies_string (codes " apps/namespaces/shop/Deployment/web ,x/y")
    ≡ (web ∷ [], some (unexpected_field_composition (codes "x/y")))
unfolding program
unmarshal_spaces = refl

parse_wrong_marker :
    parse_dependency_object_metadata (codes "apps/ns/shop/Deployment/web")
    ≡ err (unexpected_string (codes "apps/ns/shop/Deployment/web"))
unfolding program
parse_wrong_marker = refl

no_annotation : object_explicit_dependencies job ≡ ([], none)
unfolding program
no_annotation = refl

role-IsReference : IsReference role
role-IsReference = record {
  has_kind = cc;
  has_name = cc;
  group_field = omega arith;
  namespace_field = omega arith;
  kind_field = omega arith;
  name_field = omega arith;
  begins = refl;
  ends = refl;
}

web-IsReference : IsReference web
web-IsReference = record {
  has_kind = cc;
  has_name = cc;
  group_field = omega arith;
  namespace_field = omega arith;
  kind_field = omega arith;
  name_field = omega arith;
  begins = refl;
  ends = refl;
}

unmarshal-marshal_example :
    (text : Str) × (marshal_depedencies_string (role ∷ web ∷ []) ≡ ok text)
    × (unmarshal_depedencies_string text ≡ (role ∷ web ∷ [], none))
unmarshal-marshal_example =
    unmarshal-marshal role (web ∷ []) (role-IsReference, (web-IsReference, tt))

explicit_dependencies-set_example :
    (obj' : Unstructured) × (set_object_explicit_dependencies job (web ∷ []) ≡ ok obj')
    × (object_explicit_dependencies obj' ≡ (web ∷ [], none))
    × (object_metadata_from_unstructured obj' ≡ object_metadata_from_unstructured job)
explicit_dependencies-set_example = explicit_dependencies-set job web [] (web-IsReference, tt)
