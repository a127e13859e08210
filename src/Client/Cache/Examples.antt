-- ===== src/Client/Cache/Examples.antt =====
-- A missing deployment is asked for twice; the state of the server counts the requests.
use jpl.Base.{ℕ, suc, codes, [], ◌∷◌, ◌≡◌, refl}
use jpl.Remote.{Error, ok, err, not_found}
use jpl.Resource.Object.{GroupKind, ObjectMetadata}
use jpl.Client.Cache.{
  ResourceStatus, Getter, CachedResourceGetter, new_cached_resource_getter, get_cached, get_all,
}
use jpl.Client.Cache.Stable.{get_cached-stable}

abbrev web_id : ObjectMetadata
web_id = record {
  name = codes "web";
  namespace = codes "shop";
  group = codes "apps";
  kind = codes "Deployment";
}

abbrev shop_id : ObjectMetadata
shop_id = record { name = codes "shop"; namespace = []; group = []; kind = codes "Namespace" }

abbrev absent : Error
absent = record { text = codes "not found"; reason = not_found }

abbrev getter : Getter ℕ GroupKind
getter = record {
  rest_mapping = λ gk r. (ok gk, r);
  get_resource = λ mapping namespace name r. (err absent, suc r);
}

abbrev first : ResourceStatus × CachedResourceGetter ℕ
first = get_cached getter web_id (new_cached_resource_getter 0)

get_cached-stable_example :
    get_cached getter web_id (get_all getter (shop_id ∷ []) first.1)
    ≡ (first.0, get_all getter (shop_id ∷ []) first.1)
get_cached-stable_example =
    get_cached-stable getter web_id (record { group = codes "apps"; kind = codes "Deployment" })
      (new_cached_resource_getter 0) (shop_id ∷ []) refl
