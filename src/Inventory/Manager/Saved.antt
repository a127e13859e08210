-- ===== src/Inventory/Manager/Saved.antt =====
-- Which objects the saved inventory holds.
use mathlib.Core.List.{Nodup, Nodup-cons}
use jpl.Base.{
  List, [], ◌∷◌, Option, none, some, Bool, true, false, ◌≡◌, refl, ◌||◌, ◌&&◌, if◌then◌else◌, arith,
}
use jpl.Base.Maps.{get, keys, get-put}
use jpl.Base.Keys.{put-Nodup}
use jpl.Base.Sets.{is_same, contains, contains-insert, contains_of_not_mem}
use jpl.Resource.Object.{Unstructured, object_discrete}
use jpl.Inventory.Manager.{
  ObjectStatus, apply_successfull, apply_failed, delete_successfull, delete_failed, skipped,
  Manager, objects_with, objects_for_status, has_status, union, is_tracked, intersected_objects,
  new_inventory, set_status,
}

not_found :
    (obj : Unstructured) (m : List (Unstructured × ObjectStatus))
    → contains object_discrete obj (keys m) ≡ false
    → get object_discrete obj m ≡ none
unfolding get contains
not_found obj [] h = refl
not_found obj ((k, s) ∷ m) h = ground (arith, not_found obj m)

contains-objects_with :
    (status : ObjectStatus) (obj : Unstructured) (m : List (Unstructured × ObjectStatus))
    → Nodup (keys m)
    → contains object_discrete obj (objects_with status m)
      ≡ has_status status (get object_discrete obj m)
unfolding objects_with get has_status contains
contains-objects_with status obj [] h = refl
contains-objects_with status obj ((k, s) ∷ m) h =
    let (fresh, distinct) = Nodup-cons.0 h in
    ground (
      arith,
      contains-insert object_discrete k obj (objects_with status m),
      contains-objects_with status obj m distinct,
      contains_of_not_mem object_discrete k (keys m) fresh,
      not_found k m,
      not_found obj m,
    )

contains-union :
    (obj : Unstructured) (s t : List Unstructured)
    → contains object_discrete obj (union s t)
      ≡ (contains object_discrete obj s || contains object_discrete obj t)
unfolding union contains
contains-union obj s [] = ground arith
contains-union obj s (x ∷ t) =
    ground (arith, contains-insert object_discrete x obj (union s t), contains-union obj s t)

contains-intersected_objects :
    (obj : Unstructured) (s second : List Unstructured)
    → contains object_discrete obj (intersected_objects s second)
      ≡ (contains object_discrete obj s && is_tracked obj second)
unfolding intersected_objects contains
contains-intersected_objects obj [] second = refl
contains-intersected_objects obj (x ∷ s) second = ground (
  arith,
  contains-insert object_discrete x obj (intersected_objects s second),
  contains-intersected_objects obj s second,
)

-- Whether an object with this status is saved, tracked before the run or not.
abbrev pub is_saved : Bool → Option ObjectStatus → Bool
is_saved tracked none = false
is_saved tracked (some apply_successfull) = true
is_saved tracked (some apply_failed) = tracked
is_saved tracked (some delete_successfull) = false
is_saved tracked (some delete_failed) = true
is_saved tracked (some skipped) = tracked

saved_by :
    (tracked : Bool) (o : Option ObjectStatus)
    → (((has_status apply_successfull o || has_status delete_failed o)
          || (has_status apply_failed o && tracked))
        || (has_status skipped o && tracked))
      ≡ is_saved tracked o
unfolding has_status
saved_by tracked none = refl
saved_by tracked (some apply_successfull) = refl
saved_by tracked (some apply_failed) = ground arith
saved_by tracked (some delete_successfull) = refl
saved_by tracked (some delete_failed) = refl
saved_by tracked (some skipped) = refl

-- Where the map of the statuses has each object once, the saved inventory holds exactly the objects
-- that were applied, those that could not be deleted,
-- and those whose apply failed or was skipped where an object of their identity was in the inventory
-- before the run.
pub contains-new_inventory :
    (m : Manager) (obj : Unstructured)
    → Nodup (keys m.object_statuses)
    → contains object_discrete obj (new_inventory m)
      ≡ is_saved (is_tracked obj m.starting_objects) (get object_discrete obj m.object_statuses)
unfolding new_inventory objects_for_status
contains-new_inventory m obj h =
    let statuses = m.object_statuses in
    let tracked = m.starting_objects in
    let applied = objects_with apply_successfull statuses in
    let undeleted = objects_with delete_failed statuses in
    let failed = intersected_objects (objects_with apply_failed statuses) tracked in
    let left = intersected_objects (objects_with skipped statuses) tracked in
    ground (
      arith,
      contains-union obj (union (union applied undeleted) failed) left,
      contains-union obj (union applied undeleted) failed,
      contains-union obj applied undeleted,
      contains-intersected_objects obj (objects_with apply_failed statuses) tracked,
      contains-intersected_objects obj (objects_with skipped statuses) tracked,
      contains-objects_with apply_successfull obj statuses h,
      contains-objects_with delete_failed obj statuses h,
      contains-objects_with apply_failed obj statuses h,
      contains-objects_with skipped obj statuses h,
      saved_by (is_tracked obj tracked) (get object_discrete obj statuses),
    )

pub get-set_status :
    (k obj : Unstructured) (status : ObjectStatus) (m : Manager)
    → get object_discrete obj (set_status k status m).object_statuses ≡ (
        if is_same object_discrete k obj
        then some status
        else get object_discrete obj m.object_statuses)
unfolding set_status
get-set_status k obj status m =
    ground (arith, get-put object_discrete k obj status m.object_statuses)

pub set_status-Nodup :
    (obj : Unstructured) (status : ObjectStatus) (m : Manager)
    → Nodup (keys m.object_statuses)
    → Nodup (keys (set_status obj status m).object_statuses)
unfolding set_status
set_status-Nodup obj status m h = put-Nodup object_discrete obj status m.object_statuses h
