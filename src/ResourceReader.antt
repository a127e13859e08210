-- ===== src/ResourceReader.antt =====
-- Package resourcereader (pkg/resourcereader): objects from a stream or a path, and their namespaces.
-- kio reads and filters the nodes, and encoding/json makes objects of them: these are parameters. Each
-- object that is read is a new one.
pub mod Placed
mod Examples
use Prim.Native.String.{String}
use jpl.Base.{
  Str, codes, str_discrete, List, [], ◌∷◌, ◌++◌, Option, none, some, Bool, true, false, not, ◌&&◌,
  ◌||◌, if◌then◌else◌,
}
use jpl.Base.Sets.{is_same}
use jpl.Remote.{Error, Outcome, ok, err, other_reason, wrap}
use jpl.Resource.Object.{GroupVersionKind, Unstructured, find_crds}
use jpl.Resource.Scope.{RestScope, rest_scope_root, rest_scope_namespace, ScopeApi, scope}

-- ReaderConfigs
pub record ReaderConfigs : Type 0 where
  pub mapper : ScopeApi
  pub namespace : Str
  pub enforce_namespace : Bool

abbrev pub is_empty : Str → Bool
is_empty [] = true
is_empty (c ∷ s) = false

-- EnforcedNamespaceError, with the quoted kind and the quoted namespaces
enforced_namespace_error : Str → Str → Str → Error
enforced_namespace_error gvk found enforced = record {
  text =
      codes "found resource "
      ++ (gvk
          ++ (codes " in namespace "
              ++ (found ++ (codes ", but all resources must be in namespace " ++ enforced))));
  reason = other_reason;
}

cluster_scope_error : Str → Str → Error
cluster_scope_error gvk found = record {
  text =
      codes "resource " ++ (gvk ++ (codes " has cluster scope but has namespace set to " ++ found));
  reason = other_reason;
}

-- The error of an object, and the object after the loop's body.
abbrev pub Placing : Type 0
Placing = Option Error × Unstructured

module _ (quoted : Str → Str) (configs : ReaderConfigs) where
  -- A namespaced resource: refused, or without a namespace, or with one.
  namespaced : Bool → Bool → Unstructured → Placing
  namespaced true empty obj = (
    some (
        enforced_namespace_error (configs.mapper.gvk_quoted obj.gvk) (quoted obj.namespace)
          (quoted configs.namespace)),
    obj,
  )
  namespaced false true obj = (none, record obj { namespace = configs.namespace })
  namespaced false false obj = (none, obj)

  is_refused : Unstructured → Bool
  is_refused obj =
      configs.enforce_namespace
      && not (is_empty obj.namespace)
      && not (is_same str_discrete obj.namespace configs.namespace)

  -- A resource of the cluster: without a namespace, or with one.
  clustered : Bool → Unstructured → Placing
  clustered true obj = (none, obj)
  clustered false obj =
      (some (cluster_scope_error (configs.mapper.gvk_quoted obj.gvk) (quoted obj.namespace)), obj)

  place_object : Unstructured → Outcome RestScope → Placing
  place_object obj (err e) = (some e, obj)
  place_object obj (ok rest_scope_namespace) =
      namespaced (is_refused obj) (is_empty obj.namespace) obj
  place_object obj (ok rest_scope_root) = clustered (is_empty obj.namespace) obj

  -- At an error the loop ends, with what has been written so far.
  and_next :
      List Unstructured
      → Placing
      → Option Error × List Unstructured
      → Option Error × List Unstructured
  and_next objs (some e, obj) later = (some e, obj ∷ objs)
  and_next objs (none, obj) (error, later) = (error, obj ∷ later)

  place_each : List Unstructured → List Unstructured → Option Error × List Unstructured
  place_each crds [] = (none, [])
  place_each crds (obj ∷ objs) =
      and_next objs (place_object obj (scope configs.mapper obj crds)) (place_each crds objs)

  unless_off : Bool → List Unstructured → Option Error × List Unstructured
  unless_off true objs = (none, objs)
  unless_off false objs = place_each (find_crds objs) objs

  -- setNamespace: the error, and the objects after the call.
  pub set_namespace : List Unstructured → Option Error × List Unstructured
  set_namespace objs = unless_off (not configs.enforce_namespace && is_empty configs.namespace) objs

-- kio and encoding/json, for nodes of type `Node` and data of type `Data`.
pub record NodeApi (Node Data : Type 0) : Type 0 where
  pub marshal_json : Node → Outcome Data
  pub unmarshal_json : Data → Outcome Unstructured

module _ {Node Data : Type 0} (api : NodeApi Node Data) where
  object_of : Node → Outcome Unstructured
  object_of node = elim (api.marshal_json node) [
    | err e ↦ err e
    | ok json ↦ api.unmarshal_json json
  ]

  also : Outcome Unstructured → Outcome (List Unstructured) → Outcome (List Unstructured)
  also (err e) rest = err e
  also (ok obj) (err e) = err e
  also (ok obj) (ok objs) = ok (obj ∷ objs)

  objects_of : List Node → Outcome (List Unstructured)
  objects_of [] = ok []
  objects_of (node ∷ nodes) = also (object_of node) (objects_of nodes)

  -- objectsFromReader, on what the pipeline reads and filters.
  pub objects_from_reader : Outcome (List Node) → Outcome (List Unstructured)
  objects_from_reader (err e) = err e
  objects_from_reader (ok nodes) = objects_of nodes

  module _ (quoted : Str → Str) (configs : ReaderConfigs) where
    -- Read, with the prefix of an error; it returns no objects where it could not read them.
    pub read : (Error → Error) → Outcome (List Unstructured) → Option Error × List Unstructured
    read wrapped (err e) = (some (wrapped e), [])
    read wrapped (ok objs) = set_namespace quoted configs objs

    -- StreamReader.Read
    pub read_stream : Outcome (List Node) → Option Error × List Unstructured
    read_stream nodes = read (wrap "fail to read from stream: ") (objects_from_reader nodes)

    -- FilepathReader.Read
    pub read_filepath : Str → Outcome (List Node) → Option Error × List Unstructured
    read_filepath path nodes =
        read
          (λ e. record e {
            text = codes "fail to read from path " ++ (quoted path ++ (codes ": " ++ e.text));
          })
          (objects_from_reader nodes)

-- Which reader ResourceReader returns.
pub data Reader : Type 0 where
  stream_reader : ReaderConfigs → Reader
  filepath_reader : Str → ReaderConfigs → Reader

abbrev pub stdin_path : Str
stdin_path = codes "-"

-- ResourceReader, on the answers of the factory: the namespace with whether it is enforced, and the
-- mapper.
pub resource_reader : Outcome (Str × Bool) → Outcome ScopeApi → Str → Outcome Reader
resource_reader (err e) mapper path = err (wrap "error while reading kubernetes config: " e)
resource_reader (ok (namespace, enforce)) (err e) path =
    err (wrap "error while retrieving mapper: " e)
resource_reader (ok (namespace, enforce)) (ok mapper) path =
    let configs : ReaderConfigs = record {
      mapper = mapper;
      namespace = namespace;
      enforce_namespace = enforce;
    } in
    if is_same str_discrete path stdin_path
    then ok (stream_reader configs)
    else ok (filepath_reader path configs)
