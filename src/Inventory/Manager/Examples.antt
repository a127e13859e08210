-- ===== src/Inventory/Manager/Examples.antt =====
-- The inventory after a run that applied one object and skipped another, which was not tracked.
use mathlib.Core.List.{Nodup, Nodup-cons, Nodup-nil, not-mem-nil}
use jpl.Base.{codes, [], ◌∷◌, false, ◌≡◌, refl, str_discrete, ℕ_discrete}
use jpl.Base.Maps.{get, keys}
use jpl.Base.Sets.{contains, not_mem_of_contains}
use jpl.Resource.Object.{
  Unstructured, object_discrete, metadata_discrete, object_metadata_from_unstructured,
}
use jpl.Inventory.Manager.{Manager, apply_successfull, skipped, new_inventory, is_tracked}
use jpl.Inventory.Manager.Saved.{contains-new_inventory}

abbrev settings : Unstructured
settings = record {
  address = 1;
  gvk = record { group = []; version = codes "v1"; kind = codes "ConfigMap" };
  name = codes "settings";
  namespace = codes "shop";
  annotations = [];
}

abbrev token : Unstructured
token = record {
  address = 2;
  gvk = record { group = []; version = codes "v1"; kind = codes "Secret" };
  name = codes "token";
  namespace = codes "shop";
  annotations = [];
}

abbrev manager : Manager
manager = record {
  starting_objects = settings ∷ [];
  object_statuses = (settings, apply_successfull) ∷ (token, skipped) ∷ [];
}

program : Unit {0}
unfolding contains get object_discrete metadata_discrete object_metadata_from_unstructured
    is_tracked str_discrete ℕ_discrete
program = tt

settings-fresh : contains object_discrete settings (token ∷ []) ≡ false
unfolding program
settings-fresh = refl

distinct : Nodup (keys manager.object_statuses)
distinct = Nodup-cons.1 (
  not_mem_of_contains object_discrete settings (token ∷ []) settings-fresh,
  Nodup-cons.1 (not-mem-nil, Nodup-nil),
)

contains-new_inventory_example : contains object_discrete token (new_inventory manager) ≡ false
unfolding program
contains-new_inventory_example = contains-new_inventory manager token distinct
