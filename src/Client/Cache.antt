-- ===== src/Client/Cache.antt =====
-- pkg/client/cache/object_cache.go: CachedResourceGetter. The mapper and the client are parameters;
-- the lock makes each Get one step.
pub mod Stable
mod Examples
use jpl.Base.{Str, List, [], ◌∷◌, Option, none, some, Bool, true, false, ◌||◌, if◌then◌else◌}
use jpl.Base.Maps.{get, put}
use jpl.Remote.{Error, Outcome, ok, err, is_no_match, is_not_found}
use jpl.Resource.Object.{
  GroupKind, ObjectMetadata, Unstructured, metadata_discrete, metadata_group_kind,
}

-- What is known of an object; without an object and an error it is missing.
pub record ResourceStatus : Type 0 where
  pub obj : Option Unstructured
  pub error : Option Error

-- The mapper and the client.
pub record Getter (R Mapping : Type 0) : Type 0 where
  pub rest_mapping : GroupKind → R → Outcome Mapping × R
  pub get_resource : Mapping → Str → Str → R → Outcome Unstructured × R

pub record CachedResourceGetter (R : Type 0) : Type 0 where
  pub cache : List (ObjectMetadata × ResourceStatus)
  pub remote : R

-- NewCachedResourceGetter
pub new_cached_resource_getter : {R : Type 0} → R → CachedResourceGetter R
new_cached_resource_getter r = record { cache = []; remote = r }

abbrev pub missing : ResourceStatus
missing = record { obj = none; error = none }

module _ {R Mapping : Type 0} (getter : Getter R Mapping) where
  abbrev keep :
      ObjectMetadata
      → ResourceStatus
      → List (ObjectMetadata × ResourceStatus)
      → R
      → ResourceStatus × CachedResourceGetter R
  keep id status cache r =
      (status, record { cache = put metadata_discrete id status cache; remote = r })

  -- After the client's Get.
  got :
      ObjectMetadata
      → List (ObjectMetadata × ResourceStatus)
      → Outcome Unstructured × R
      → ResourceStatus × CachedResourceGetter R
  got id cache (ok obj, r) = keep id (record { obj = some obj; error = none }) cache r
  got id cache (err e, r) =
      if is_no_match e || is_not_found e
      then keep id missing cache r
      else keep id (record { obj = none; error = some e }) cache r

  -- After RESTMapping: an error of the mapper is not kept.
  mapped :
      ObjectMetadata
      → List (ObjectMetadata × ResourceStatus)
      → Outcome Mapping × R
      → ResourceStatus × CachedResourceGetter R
  mapped id cache (err e, r) =
      (record { obj = none; error = some e }, record { cache = cache; remote = r })
  mapped id cache (ok mapping, r) =
      got id cache (getter.get_resource mapping id.namespace id.name r)

  -- getObject
  get_object : ObjectMetadata → CachedResourceGetter R → ResourceStatus × CachedResourceGetter R
  get_object id s = mapped id s.cache (getter.rest_mapping (metadata_group_kind id) s.remote)

  from_cache :
      ObjectMetadata
      → CachedResourceGetter R
      → Option ResourceStatus
      → ResourceStatus × CachedResourceGetter R
  from_cache id s (some status) = (status, s)
  from_cache id s none = get_object id s

  -- CachedResourceGetter.Get: the object with the error, as one status.
  pub get_cached : ObjectMetadata → CachedResourceGetter R → ResourceStatus × CachedResourceGetter R
  get_cached id s = from_cache id s (get metadata_discrete id s.cache)

  -- Any further calls.
  pub get_all : List ObjectMetadata → CachedResourceGetter R → CachedResourceGetter R
  get_all [] s = s
  get_all (id ∷ ids) s = get_all ids (get_cached id s).1
