-- ===== src/Inventory/Store/Examples.antt =====
-- A store with a namespace and a cluster role, on a server of which the state is what it keeps.
use jpl.Base.{codes, List, [], ◌∷◌, none, some, false, ◌≡◌, refl, All}
use jpl.Base.Sets.{contains}
use jpl.Remote.{ok}
use jpl.Resource.Object.{
  ObjectMetadata, Unstructured, metadata_discrete, object_metadata_from_unstructured,
}
use jpl.Resource.Text.{to_string, object_metadata_from_string}
use jpl.Resource.Text.RoundTrip.{IsEncodable, from_string-to_string}
use jpl.Inventory.Store.{Data, ConfigMaps, ConfigMapStore, save, saved, load_inventory}
use jpl.Inventory.Store.RoundTrip.{IsKeeping, Encodable, has_identity, load-save}

abbrev shop : Unstructured
shop = record {
  address = 1;
  gvk = record { group = []; version = codes "v1"; kind = codes "Namespace" };
  name = codes "shop";
  namespace = [];
  annotations = [];
}

abbrev role : Unstructured
role = record {
  address = 2;
  gvk = record {
    group = codes "rbac.authorization.k8s.io";
    version = codes "v1";
    kind = codes "ClusterRole";
  };
  name = codes "system:log_reader";
  namespace = [];
  annotations = [];
}

abbrev role_id : ObjectMetadata
role_id = record { name = role.name; namespace = []; group = role.gvk.group; kind = role.gvk.kind }

role_id-IsEncodable : IsEncodable role_id
role_id-IsEncodable = record {
  namespace = refl;
  name_start = refl;
  name = refl;
  clear = refl;
  group = refl;
  kind = refl;
}

from_string-to_string_example : object_metadata_from_string (to_string role_id) ≡ some role_id
from_string-to_string_example = from_string-to_string role_id role_id-IsEncodable

abbrev maps : ConfigMaps Data
maps = record {
  apply = λ data' dry_run r. (none, data');
  delete = λ dry_run r. (none, []);
  get_data = λ r. (ok r, r);
}

maps-IsKeeping : IsKeeping maps
maps-IsKeeping = record { keeps = λ data' r e. refl }

abbrev store : ConfigMapStore
store = record { saved_objects = shop ∷ role ∷ [] }

encodable : All Encodable (shop ∷ role ∷ [])
unfolding object_metadata_from_unstructured
encodable = (
  record {
    namespace = refl;
    name_start = refl;
    name = refl;
    clear = refl;
    group = refl;
    kind = refl;
  },
  (role_id-IsEncodable, tt),
)

save_fine : (save maps store false []).0 ≡ none
unfolding save saved
save_fine = refl

load-save_example :
    (ids : List ObjectMetadata) × ((load_inventory maps (save maps store false []).1).0 ≡ ok ids)
    × ((id : ObjectMetadata)
        → contains metadata_discrete id ids ≡ has_identity id (shop ∷ role ∷ []))
load-save_example = load-save maps maps-IsKeeping store [] encodable save_fine
