-- ===== src/Event.antt =====
-- pkg/event/event.go: the events that a run sends. An Event is tagged by its type; the texts are made
-- from the way in which schema.GroupKind prints itself, `gk_string`.
use jpl.Base.{Str, codes, List, ◌++◌, Option, none, some, Bool, true, false, join, map}
use jpl.Remote.{Error}
use jpl.Poller.Result.{Message}
use jpl.Resource.Object.{
  GroupKind, ObjectMetadata, Unstructured, group_kind_of, metadata_group_kind,
}

pub data Status : Type 0 where
  status_pending : Status
  status_successful : Status
  status_failed : Status
  status_skipped : Status

-- An object's action: of an apply, or of a prune.
pub record ActionInfo : Type 0 where
  pub object : Unstructured
  pub status : Status
  pub error : Option Error

pub record InventoryInfo : Type 0 where
  pub status : Status
  pub error : Option Error

pub record StatusUpdateInfo : Type 0 where
  pub status : Status
  pub message : Message
  pub object_metadata : ObjectMetadata

pub data Event : Type 0 where
  type_error : Error → Event
  type_queue : List Unstructured → Event
  type_apply : ActionInfo → Event
  type_prune : ActionInfo → Event
  type_inventory : InventoryInfo → Event
  type_status_update : StatusUpdateInfo → Event

abbrev is_some : Option Error → Bool
is_some none = false
is_some (some e) = true

abbrev pub is_failed : Status → Bool
is_failed status_failed = true
is_failed status_pending = false
is_failed status_successful = false
is_failed status_skipped = false

-- Event.IsErrorEvent
pub is_error_event : Event → Bool
is_error_event (type_error e) = true
is_error_event (type_queue objs) = false
is_error_event (type_apply i) = is_some i.error
is_error_event (type_prune i) = is_some i.error
is_error_event (type_inventory i) = is_some i.error
is_error_event (type_status_update i) = is_failed i.status

module _ (gk_string : GroupKind → Str) (message_text : Message → Str) where
  -- identifierFromObject
  identifier_from_object : Unstructured → Str
  identifier_from_object obj = gk_string (group_kind_of obj) ++ (codes " " ++ obj.name)

  -- The text of an error; a nil error panics.
  with_error : Str → Option Error → Option Str
  with_error text none = none
  with_error text (some e) = some (text ++ e.text)

  -- ApplyInfo.String
  pub apply_info_string : ActionInfo → Option Str
  apply_info_string i = elim i.status [
    | status_pending ↦ some (identifier_from_object i.object ++ codes ": apply started...")
    | status_successful ↦ some (identifier_from_object i.object ++ codes ": applied successfully")
    | status_skipped ↦ some (identifier_from_object i.object ++ codes ": apply skipped")
    | status_failed ↦
        with_error (identifier_from_object i.object ++ codes ": failed to apply: ") i.error
  ]

  -- PruneInfo.String
  pub prune_info_string : ActionInfo → Option Str
  prune_info_string i = elim i.status [
    | status_pending ↦ some (identifier_from_object i.object ++ codes ": prune started...")
    | status_successful ↦ some (identifier_from_object i.object ++ codes ": pruned successfully")
    | status_failed ↦
        with_error (identifier_from_object i.object ++ codes ": failed to prune: ") i.error
    | status_skipped ↦ some (identifier_from_object i.object ++ codes ": prune status unknown")
  ]

  -- `%s` of an error, which prints a nil one too.
  shown : Option Error → Str
  shown none = codes "%!s(<nil>)"
  shown (some e) = e.text

  -- InventoryInfo.String
  pub inventory_info_string : InventoryInfo → Str
  inventory_info_string i = elim i.status [
    | status_pending ↦ codes "inventory: apply started..."
    | status_successful ↦ codes "inventory: applied successfully"
    | status_failed ↦ codes "inventory: failed to apply: " ++ shown i.error
    | status_skipped ↦ codes "inventory: apply status unknown"
  ]

  -- QueueInfo.String; `%s` prints a list in brackets, its elements apart by a space.
  pub queue_info_string : List Unstructured → Str
  queue_info_string objs =
      codes "queue started for: ["
      ++ (join b' ' (map (λ obj. identifier_from_object obj) objs) ++ codes "]")

  -- StatusUpdateInfo.String
  pub status_update_info_string : StatusUpdateInfo → Str
  status_update_info_string i =
      gk_string (metadata_group_kind i.object_metadata)
      ++ (codes " " ++ (i.object_metadata.name ++ (codes ": " ++ message_text i.message)))

  -- Event.String
  pub event_string : Event → Option Str
  event_string (type_queue objs) = some (queue_info_string objs)
  event_string (type_error e) = some e.text
  event_string (type_apply i) = apply_info_string i
  event_string (type_prune i) = prune_info_string i
  event_string (type_inventory i) = some (inventory_info_string i)
  event_string (type_status_update i) = some (status_update_info_string i)
