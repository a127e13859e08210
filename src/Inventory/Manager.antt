-- ===== src/Inventory/Manager.antt =====
-- pkg/inventory/manager.go: the statuses of the objects of a run, and the inventory made of them.
-- The store is a parameter: SetObjects with Save, and Delete.
pub mod Saved
mod Examples
use jpl.Base.{
  ℕ, Str, List, [], ◌∷◌, Option, none, some, Bool, true, false, if◌then◌else◌, map, ◌==◌,
}
use jpl.Base.Maps.{get, put}
use jpl.Base.Sets.{contains, insert}
use jpl.Remote.{Error}
use jpl.Resource.Object.{
  ObjectMetadata, Unstructured, object_discrete, metadata_discrete,
  object_metadata_from_unstructured,
}

pub data ObjectStatus : Type 0 where
  apply_successfull : ObjectStatus
  apply_failed : ObjectStatus
  delete_successfull : ObjectStatus
  delete_failed : ObjectStatus
  skipped : ObjectStatus

abbrev iota : ObjectStatus → ℕ
iota apply_successfull = 0
iota apply_failed = 1
iota delete_successfull = 2
iota delete_failed = 3
iota skipped = 4

abbrev pub is_status : ObjectStatus → ObjectStatus → Bool
is_status a b = iota a == iota b

pub record Manager : Type 0 where
  pub starting_objects : List Unstructured
  pub object_statuses : List (Unstructured × ObjectStatus)

unfoldable pub new_manager : List Unstructured → Manager
new_manager objs = record { starting_objects = objs; object_statuses = [] }

-- setStatus, which the five operations `Set…` call with their status
unfoldable pub set_status : Unstructured → ObjectStatus → Manager → Manager
set_status obj status m = record m {
  object_statuses = put object_discrete obj status m.object_statuses;
}

objects_with : ObjectStatus → List (Unstructured × ObjectStatus) → List Unstructured
objects_with status [] = []
objects_with status ((obj, s) ∷ rest) =
    let found = objects_with status rest in
    if is_status s status then insert object_discrete obj found else found

-- objectsForStatus
pub objects_for_status : ObjectStatus → Manager → List Unstructured
objects_for_status status m = objects_with status m.object_statuses

has_status : ObjectStatus → Option ObjectStatus → Bool
has_status status none = false
has_status status (some s) = is_status s status

pub is_failed_apply : Unstructured → Manager → Bool
is_failed_apply obj m = has_status apply_failed (get object_discrete obj m.object_statuses)

pub is_skipped : Unstructured → Manager → Bool
is_skipped obj m = has_status skipped (get object_discrete obj m.object_statuses)

-- Set.Union
union : List Unstructured → List Unstructured → List Unstructured
union s [] = s
union s (obj ∷ objs) = insert object_discrete obj (union s objs)

-- The identity of the object is among those of `second`.
pub is_tracked : Unstructured → List Unstructured → Bool
is_tracked obj second =
    contains metadata_discrete (object_metadata_from_unstructured obj)
      (map object_metadata_from_unstructured second)

-- intersectedObjects
intersected_objects : List Unstructured → List Unstructured → List Unstructured
intersected_objects [] second = []
intersected_objects (obj ∷ first) second =
    let rest = intersected_objects first second in
    if is_tracked obj second then insert object_discrete obj rest else rest

-- The set that SaveCurrentInventoryState gives to the store.
pub new_inventory : Manager → List Unstructured
new_inventory m =
    union
      (union (union (objects_for_status apply_successfull m) (objects_for_status delete_failed m))
        (intersected_objects (objects_for_status apply_failed m) m.starting_objects))
      (intersected_objects (objects_for_status skipped m) m.starting_objects)

-- DeleteRemoteInventoryIfPossible decides by the failed deletes whether the store is told to delete.
pub deletes_remote_inventory : Manager → Bool
deletes_remote_inventory m = elim (objects_for_status delete_failed m) [
  | [] ↦ true
  | obj ∷ objs ↦ false
]

module _ {R : Type 0} where
  -- SaveCurrentInventoryState; `save` is SetObjects followed by Save.
  unfoldable pub save_current_inventory_state :
      (List Unstructured → Bool → R → Option Error × R) → Manager → Bool → R → Option Error × R
  save_current_inventory_state save m dry_run r = save (new_inventory m) dry_run r

  -- DeleteRemoteInventoryIfPossible
  pub delete_remote_inventory_if_possible :
      (Bool → R → Option Error × R) → Manager → Bool → R → Option Error × R
  delete_remote_inventory_if_possible delete_store m dry_run r =
      if deletes_remote_inventory m then delete_store dry_run r else (none, r)
