-- ===== src/Resource/Depends.antt =====
-- pkg/resource/dependency.go: the annotation that lists the dependencies of an object.
pub mod RoundTrip
mod Examples
use jpl.Base.{
  ℕ, Str, codes, str_discrete, split, join, trim_space, List, [], ◌∷◌, ◌++◌, ite, Option, none,
  some,
}
use jpl.Base.Maps.{get, put}
use jpl.Resource.Object.{ObjectMetadata, Unstructured}

pub data DependsError : Type 0 where
  unexpected_string : Str → DependsError
  unexpected_field_composition : Str → DependsError
  missing_resource_kind : DependsError
  missing_resource_name : DependsError

pub data Result {ℓ} (A : Type ℓ) : Type ℓ where
  ok : A → Result A
  err : DependsError → Result A

abbrev pub depends_on_annotation : Str
depends_on_annotation = codes "config.kubernetes.io/depends-on"

abbrev pub annotation_separator : ℕ
annotation_separator = b','

abbrev pub field_separator : ℕ
field_separator = b'/'

abbrev pub namespaces_field : Str
namespaces_field = codes "namespaces"

parse_fields : Str → List Str → Result ObjectMetadata
unfolding str_discrete
parse_fields text (group ∷ kind ∷ name ∷ []) =
    ok (record { name = name; namespace = []; group = group; kind = kind })
parse_fields text (group ∷ marker ∷ namespace ∷ kind ∷ name ∷ []) =
    ite (str_discrete marker namespaces_field)
      (ok (record { name = name; namespace = namespace; group = group; kind = kind }))
      (err (unexpected_string text))
parse_fields text _ = err (unexpected_field_composition text)

pub parse_dependency_object_metadata : Str → Result ObjectMetadata
parse_dependency_object_metadata text =
    parse_fields (trim_space text) (split field_separator (trim_space text))

-- The loop of unmarshalDepedenciesString: at an error it returns what it has parsed so far.
unmarshal_parts : List Str → List ObjectMetadata × Option DependsError
unmarshal_parts [] = ([], none)
unmarshal_parts (part ∷ parts) = elim (parse_dependency_object_metadata part) [
  | ok m ↦ let (ms, error) = unmarshal_parts parts in (m ∷ ms, error)
  | err e ↦ ([], some e)
]

pub unmarshal_depedencies_string : Str → List ObjectMetadata × Option DependsError
unmarshal_depedencies_string text = unmarshal_parts (split annotation_separator text)

pub format_dependency_object_metadata : ObjectMetadata → Result Str
unfolding str_discrete
format_dependency_object_metadata m = ite (str_discrete m.kind []) (err missing_resource_kind) (
    ite (str_discrete m.name []) (err missing_resource_name) (
      ite (str_discrete m.namespace [])
        (ok (m.group ++ (field_separator ∷ m.kind ++ (field_separator ∷ m.name))))
        (ok (
          m.group
          ++ (field_separator ∷ namespaces_field
              ++ (field_separator ∷ m.namespace
                  ++ (field_separator ∷ m.kind ++ (field_separator ∷ m.name))))))))

-- The loop of marshalDepedenciesString.
marshal_parts : List ObjectMetadata → Result (List Str)
marshal_parts [] = ok []
marshal_parts (m ∷ ms) = elim (format_dependency_object_metadata m) [
  | err e ↦ err e
  | ok text ↦ elim (marshal_parts ms) [ err e ↦ err e | ok texts ↦ ok (text ∷ texts) ]
]

pub marshal_depedencies_string : List ObjectMetadata → Result Str
marshal_depedencies_string ms = elim (marshal_parts ms) [
  | err e ↦ err e
  | ok texts ↦ ok (join annotation_separator texts)
]

-- hasDepedencyAnnotation and ObjectExplicitDependencies: with the annotation, its parsed text.
unfoldable pub object_explicit_dependencies :
    Unstructured → List ObjectMetadata × Option DependsError
object_explicit_dependencies obj = elim (get str_discrete depends_on_annotation obj.annotations) [
  | none ↦ ([], none)
  | some text ↦ unmarshal_depedencies_string text
]

-- SetObjectExplicitDependencies: the object after the call, or the error.
pub set_object_explicit_dependencies : Unstructured → List ObjectMetadata → Result Unstructured
set_object_explicit_dependencies obj [] = ok obj
set_object_explicit_dependencies obj (m ∷ ms) = elim (marshal_depedencies_string (m ∷ ms)) [
  | err e ↦ err e
  | ok text ↦
      ok (record obj { annotations = put str_discrete depends_on_annotation text obj.annotations })
]
