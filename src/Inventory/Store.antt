-- ===== src/Inventory/Store.antt =====
-- pkg/inventory/configmap.go: the store that keeps the inventory in a ConfigMap, one key for each
-- object. The client of the server is a parameter, already given the name and the namespace.
pub mod RoundTrip
mod Examples
use jpl.Base.{
  Str, str_discrete, List, [], ◌∷◌, Option, none, some, Bool, true, false, if◌then◌else◌,
}
use jpl.Base.Maps.{put}
use jpl.Base.Sets.{insert}
use jpl.Remote.{Error, Outcome, ok, err, is_not_found, wrap}
use jpl.Resource.Object.{
  ObjectMetadata, Unstructured, metadata_discrete, object_metadata_from_unstructured,
}
use jpl.Resource.Text.{to_string, object_metadata_from_string}

abbrev pub Data : Type 0
Data = List (Str × Str)

-- ConfigMaps(namespace) of the clientset. The flag is the dry run.
pub record ConfigMaps (R : Type 0) : Type 0 where
  pub apply : Data → Bool → R → Option Error × R
  pub delete : Bool → R → Option Error × R
  pub get_data : R → Outcome Data × R

pub record ConfigMapStore : Type 0 where
  pub saved_objects : List Unstructured

-- SetObjects
pub set_objects : List Unstructured → ConfigMapStore → ConfigMapStore
set_objects objs s = record s { saved_objects = objs }

-- The loop of dataForStore.
put_objects : List Unstructured → Data → Data
put_objects [] data' = data'
put_objects (obj ∷ objs) data' =
    put_objects objs (put str_discrete (to_string (object_metadata_from_unstructured obj)) [] data')

-- dataForStore
pub data_for_store : ConfigMapStore → Data
data_for_store s = put_objects s.saved_objects []

-- A key that is no text of an identity is passed over.
insert_read : Option ObjectMetadata → List ObjectMetadata → List ObjectMetadata
insert_read none set = set
insert_read (some id) set = insert metadata_discrete id set

read_keys : Data → List ObjectMetadata → List ObjectMetadata
read_keys [] set = set
read_keys ((key, value) ∷ data') set =
    read_keys data' (insert_read (object_metadata_from_string key) set)

module _ {R : Type 0} (maps : ConfigMaps R) where
  saved : Option Error × R → Option Error × R
  saved (none, r) = (none, r)
  saved (some e, r) = (some (wrap "failed to save inventory: " e), r)

  -- Save
  pub save : ConfigMapStore → Bool → R → Option Error × R
  save s dry_run r = saved (maps.apply (data_for_store s) dry_run r)

  deleted : Option Error × R → Option Error × R
  deleted (none, r) = (none, r)
  deleted (some e, r) =
      if is_not_found e then (none, r) else (some (wrap "failed to delete inventory: " e), r)

  -- Delete
  pub delete_inventory : Bool → R → Option Error × R
  delete_inventory dry_run r = deleted (maps.delete dry_run r)

  found : Outcome Data × R → Outcome (List ObjectMetadata) × R
  found (err e, r) =
      if is_not_found e then (ok [], r) else (err (wrap "failed to find inventory: " e), r)
  found (ok data', r) = (ok (read_keys data' []), r)

  -- Load
  pub load_inventory : R → Outcome (List ObjectMetadata) × R
  load_inventory r = found (maps.get_data r)
