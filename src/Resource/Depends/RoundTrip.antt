-- ===== src/Resource/Depends/RoundTrip.antt =====
-- What is written into the annotation is read back.
use mathlib.Core.List.{reverse}
use jpl.Base.{
  Str, str_discrete, split, join, List, [], ◌∷◌, ◌++◌, ite, if_pos, if_neg, none, ◌≡◌, ◌≢◌, refl,
  sym, ap, ◌∙◌, true, All, arith, map,
}
use jpl.Base.Strings.Laws.{
  Lacks, Lacks-join, split-join, join_last, starts_visible, starts_visible-append,
  starts_visible-reverse_append, trim_space_visible,
}
use jpl.Base.Maps.{put, get-put_self}
use jpl.Resource.Object.{ObjectMetadata, Unstructured, object_metadata_from_unstructured}
use jpl.Resource.Depends.{
  unexpected_string, ok, err, depends_on_annotation, annotation_separator, field_separator,
  namespaces_field, parse_fields, parse_dependency_object_metadata, unmarshal_parts,
  unmarshal_depedencies_string, format_dependency_object_metadata, marshal_parts,
  marshal_depedencies_string, object_explicit_dependencies, set_object_explicit_dependencies,
}

abbrev IsField : Str → Type 0
IsField s = Lacks field_separator s × Lacks annotation_separator s

-- A reference that the annotation can hold: with a kind and a name, without separators in its fields,
-- and with no white space where the text begins and ends.
pub record IsReference (m : ObjectMetadata) : Type 0 where
  pub has_kind : m.kind ≢ []
  pub has_name : m.name ≢ []
  pub group_field : IsField m.group
  pub namespace_field : IsField m.namespace
  pub kind_field : IsField m.kind
  pub name_field : IsField m.name
  pub begins : starts_visible m.group ≡ true
  pub ends : starts_visible (reverse m.name) ≡ true

fields : ObjectMetadata → List Str
fields m =
    ite (str_discrete m.namespace []) (m.group ∷ m.kind ∷ m.name ∷ [])
      (m.group ∷ namespaces_field ∷ m.namespace ∷ m.kind ∷ m.name ∷ [])

text_of : ObjectMetadata → Str
text_of m = join field_separator (fields m)

namespaces_field-IsField : IsField namespaces_field
namespaces_field-IsField = omega arith

fields_cluster : (m : ObjectMetadata) → m.namespace ≡ [] → fields m ≡ m.group ∷ m.kind ∷ m.name ∷ []
unfolding fields
fields_cluster m p = if_pos (str_discrete m.namespace []) p _ _

fields_namespaced :
    (m : ObjectMetadata)
    → m.namespace ≢ []
    → fields m ≡ m.group ∷ namespaces_field ∷ m.namespace ∷ m.kind ∷ m.name ∷ []
unfolding fields
fields_namespaced m p = if_neg (str_discrete m.namespace []) p _ _

format-text_of :
    (m : ObjectMetadata) → IsReference m → format_dependency_object_metadata m ≡ ok (text_of m)
unfolding format_dependency_object_metadata text_of join
format-text_of m h =
    if_neg (str_discrete m.kind []) h.has_kind _ _
    ∙ if_neg (str_discrete m.name []) h.has_name _ _
    ∙ (elim (str_discrete m.namespace []) [
      | yes p ↦
          if_pos (str_discrete m.namespace []) p _ _
          ∙ ap (λ fs. ok (join field_separator fs)) (sym (fields_cluster m p))
      | no p ↦
          if_neg (str_discrete m.namespace []) p _ _
          ∙ ap (λ fs. ok (join field_separator fs)) (sym (fields_namespaced m p))
    ])

marker_matches :
    (m : ObjectMetadata) (text : Str)
    → parse_fields text (m.group ∷ namespaces_field ∷ m.namespace ∷ m.kind ∷ m.name ∷ []) ≡ ok m
unfolding parse_fields
marker_matches m text =
    if_pos (str_discrete namespaces_field namespaces_field) refl (ok m)
      (err (unexpected_string text))

parse_fields-fields : (m : ObjectMetadata) (text : Str) → parse_fields text (fields m) ≡ ok m
unfolding parse_fields
parse_fields-fields m text = elim (str_discrete m.namespace []) [
  | yes p ↦ rw (fields_cluster m p) (ap (λ ns. ok (record m { namespace = ns })) (sym p))
  | no p ↦ rw (fields_namespaced m p) (marker_matches m text)
]

All-fields :
    (P : Str → Type 0) (m : ObjectMetadata)
    → P m.group
    → P namespaces_field
    → P m.namespace
    → P m.kind
    → P m.name
    → All P (fields m)
All-fields P m g s n k e = elim (str_discrete m.namespace []) [
  | yes p ↦ rw (fields_cluster m p) (g, (k, (e, tt)))
  | no p ↦ rw (fields_namespaced m p) (g, (s, (n, (k, (e, tt)))))
]

text_of-begins : (m : ObjectMetadata) → IsReference m → starts_visible (text_of m) ≡ true
unfolding text_of join
text_of-begins m h = elim (str_discrete m.namespace []) [
  | yes p ↦ rw (fields_cluster m p) (starts_visible-append m.group _ h.begins refl)
  | no p ↦ rw (fields_namespaced m p) (starts_visible-append m.group _ h.begins refl)
]

ends_with_name :
    (m : ObjectMetadata) (ps : List Str)
    → IsReference m
    → fields m ≡ ps ++ m.name ∷ []
    → starts_visible (reverse (text_of m)) ≡ true
unfolding text_of
ends_with_name m ps h e =
    let (s, q) = join_last field_separator ps m.name in
    rw (e, q) (starts_visible-reverse_append s m.name h.has_name h.ends)

text_of-ends : (m : ObjectMetadata) → IsReference m → starts_visible (reverse (text_of m)) ≡ true
text_of-ends m h = elim (str_discrete m.namespace []) [
  | yes p ↦ ends_with_name m (m.group ∷ m.kind ∷ []) h (fields_cluster m p)
  | no p ↦
      ends_with_name m (m.group ∷ namespaces_field ∷ m.namespace ∷ m.kind ∷ []) h
        (fields_namespaced m p)
]

split-text_of : (m : ObjectMetadata) → IsReference m → split field_separator (text_of m) ≡ fields m
unfolding text_of
split-text_of m h =
    let lacking =
      All-fields (Lacks field_separator) m h.group_field.0 namespaces_field-IsField.0
        h.namespace_field.0 h.kind_field.0 h.name_field.0 in
    elim (str_discrete m.namespace []) [
      | yes p ↦
          rw (fields_cluster m p)
            (split-join field_separator m.group _ (rw (fields_cluster m p) at lacking))
      | no p ↦
          rw (fields_namespaced m p)
            (split-join field_separator m.group _ (rw (fields_namespaced m p) at lacking))
    ]

-- A reference is parsed back from the text that it is formatted to.
parse-text_of :
    (m : ObjectMetadata) → IsReference m → parse_dependency_object_metadata (text_of m) ≡ ok m
unfolding parse_dependency_object_metadata
parse-text_of m h =
    rw (trim_space_visible (text_of m) (text_of-begins m h) (text_of-ends m h), split-text_of m h)
      (parse_fields-fields m (text_of m))

text_of-Lacks : (m : ObjectMetadata) → IsReference m → Lacks annotation_separator (text_of m)
unfolding text_of
text_of-Lacks m h = Lacks-join annotation_separator field_separator (fields m) (omega arith) (
    All-fields (Lacks annotation_separator) m h.group_field.1 namespaces_field-IsField.1
      h.namespace_field.1 h.kind_field.1 h.name_field.1)

texts-Lacks :
    (ms : List ObjectMetadata)
    → All IsReference ms
    → All (Lacks annotation_separator) (map text_of ms)
texts-Lacks [] h = tt
texts-Lacks (m ∷ ms) h = (text_of-Lacks m h.0, texts-Lacks ms h.1)

marshal_parts-texts :
    (ms : List ObjectMetadata) → All IsReference ms → marshal_parts ms ≡ ok (map text_of ms)
unfolding marshal_parts
marshal_parts-texts [] h = refl
marshal_parts-texts (m ∷ ms) h =
    rw (format-text_of m h.0, marshal_parts-texts ms h.1, marshal_parts)

unmarshal_parts-texts :
    (ms : List ObjectMetadata) → All IsReference ms → unmarshal_parts (map text_of ms) ≡ (ms, none)
unfolding unmarshal_parts
unmarshal_parts-texts [] h = refl
unmarshal_parts-texts (m ∷ ms) h =
    rw (parse-text_of m h.0, unmarshal_parts-texts ms h.1, unmarshal_parts)

-- For one or more references, each of which has a kind and a name, holds no separator in a field, and
-- has no white space at the beginning of its group or at the end of its name: their text exists and is
-- parsed back to these references, in order, with no error.
pub unmarshal-marshal :
    (m : ObjectMetadata) (ms : List ObjectMetadata)
    → All IsReference (m ∷ ms)
    → (text : Str) × (marshal_depedencies_string (m ∷ ms) ≡ ok text)
      × (unmarshal_depedencies_string text ≡ (m ∷ ms, none))
unfolding marshal_depedencies_string unmarshal_depedencies_string
unmarshal-marshal m ms h = (
  join annotation_separator (map text_of (m ∷ ms)),
  rw (marshal_parts-texts (m ∷ ms) h, marshal_depedencies_string),
  rw (split-join annotation_separator (text_of m) (map text_of ms) (texts-Lacks (m ∷ ms) h))
      (unmarshal_parts-texts (m ∷ ms) h),
)

-- One or more explicit dependencies, each of which has a kind and a name, holds no separator in a field,
-- and has no white space at the beginning of its group or at the end of its name, can be set on an
-- object, whatever annotations it has, and are the ones that are read from it afterwards; its identity
-- stays the same.
pub explicit_dependencies-set :
    (obj : Unstructured) (m : ObjectMetadata) (ms : List ObjectMetadata)
    → All IsReference (m ∷ ms)
    → (obj' : Unstructured) × (set_object_explicit_dependencies obj (m ∷ ms) ≡ ok obj')
      × (object_explicit_dependencies obj' ≡ (m ∷ ms, none))
      × (object_metadata_from_unstructured obj' ≡ object_metadata_from_unstructured obj)
unfolding set_object_explicit_dependencies object_explicit_dependencies
    object_metadata_from_unstructured
explicit_dependencies-set obj m ms h =
    let (text, written, read) = unmarshal-marshal m ms h in
    (
      record obj { annotations = put str_discrete depends_on_annotation text obj.annotations },
      rw (written, set_object_explicit_dependencies),
      rw
          (
            get-put_self str_discrete depends_on_annotation text obj.annotations,
            object_explicit_dependencies,
          )
          read,
      refl,
    )
