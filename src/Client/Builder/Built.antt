-- ===== src/Client/Builder/Built.antt =====
-- The applier that Build returns, and the infos that it fetches.
use jpl.Base.{Option, none, some, ◌≡◌, refl}
use jpl.Remote.{Error, Outcome, ok, err}
use jpl.Resource.Object.{Unstructured, group_kind_of}
use jpl.Client.Builder.{
  given, by_default, new_default_status_poller, Types, Builder, FactoryApi, Info, ApplierParts,
  fetch_info, with_mapping, with_client, default_info_fetcher_builder, status_poller, build_fetched,
  build_mapped, build_connected, build_checked, build_applier,
}

module _ {t : Types} (api : FactoryApi t) where
  -- What is fetched of an object: its mapping and a client for it, or an error.
  pub data IsFetched (factory : t.FactoryType) (mapper : t.MapperType) (r : Unstructured)
      : Info t × Option Error → Type 0 where
    fetched :
        (mapping : t.MappingType) (client : t.RestClientType)
        → api.rest_mapping mapper (group_kind_of r) r.gvk.version ≡ ok mapping
        → api.unstructured_client_for_mapping factory mapping ≡ ok client
        → IsFetched factory mapper r
            (record { object = r; mapping = some mapping; client = some client }, none)
    unmapped :
        (e : Error)
        → api.rest_mapping mapper (group_kind_of r) r.gvk.version ≡ err e
        → IsFetched factory mapper r (record { object = r; mapping = none; client = none }, some e)
    unconnected :
        (mapping : t.MappingType) (e : Error)
        → api.rest_mapping mapper (group_kind_of r) r.gvk.version ≡ ok mapping
        → api.unstructured_client_for_mapping factory mapping ≡ err e
        → IsFetched factory mapper r
            (record { object = r; mapping = some mapping; client = none }, some e)

  -- The parts of an applier, from the builder and the answers of its factory.
  pub record IsBuilt (b : Builder t) (a : ApplierParts t) : Type 0 where
    pub factory : t.FactoryType
    pub fetch_mapper : t.MapperType
    pub has_factory : b.factory ≡ some factory
    pub has_runner : b.runner ≡ some a.runner
    pub has_inventory : b.inventory ≡ some a.inventory
    pub has_client : api.dynamic_client factory ≡ ok a.client
    pub has_mapper : api.to_rest_mapper factory ≡ ok a.mapper
    pub has_fetch_mapper : api.to_rest_mapper_again factory ≡ ok fetch_mapper
    pub fetches : (r : Unstructured) → IsFetched factory fetch_mapper r (a.info_fetcher r)
    pub given_poller : (p : t.PollerType) → b.poller ≡ some p → a.poller ≡ given p
    pub default_poller :
        b.poller ≡ none
        → a.poller
          ≡ by_default (new_default_status_poller a.client a.mapper b.custom_resource_check)
    pub kept : (a.generators ≡ b.generators) × (a.mutators ≡ b.mutators) × (a.filters ≡ b.filters)

  -- What an applier cannot be built without.
  pub data Lacks (b : Builder t) : Type 0 where
    lacks_factory : b.factory ≡ none → Lacks b
    lacks_runner : b.runner ≡ none → Lacks b
    lacks_inventory : b.inventory ≡ none → Lacks b
    lacks_client :
        (factory : t.FactoryType) (e : Error)
        → b.factory ≡ some factory
        → api.dynamic_client factory ≡ err e
        → Lacks b
    lacks_mapper :
        (factory : t.FactoryType) (e : Error)
        → b.factory ≡ some factory
        → api.to_rest_mapper factory ≡ err e
        → Lacks b
    lacks_fetch_mapper :
        (factory : t.FactoryType) (e : Error)
        → b.factory ≡ some factory
        → api.to_rest_mapper_again factory ≡ err e
        → Lacks b

  pub data IsBuildOutcome (b : Builder t) : Outcome (ApplierParts t) → Type 0 where
    lacking : (e : Error) → Lacks b → IsBuildOutcome b (err e)
    built : (a : ApplierParts t) → IsBuilt b a → IsBuildOutcome b (ok a)

  with_client-IsFetched :
      (factory : t.FactoryType) (mapper : t.MapperType) (r : Unstructured) (mapping : t.MappingType)
      (o : Outcome t.RestClientType)
      → api.rest_mapping mapper (group_kind_of r) r.gvk.version ≡ ok mapping
      → api.unstructured_client_for_mapping factory mapping ≡ o
      → IsFetched factory mapper r
          (with_client api (record { object = r; mapping = some mapping; client = none }) o)
  unfolding with_client
  with_client-IsFetched factory mapper r mapping (err e) m c = unconnected mapping e m c
  with_client-IsFetched factory mapper r mapping (ok client) m c = fetched mapping client m c

  with_mapping-IsFetched :
      (factory : t.FactoryType) (mapper : t.MapperType) (r : Unstructured)
      (o : Outcome t.MappingType)
      → api.rest_mapping mapper (group_kind_of r) r.gvk.version ≡ o
      → IsFetched factory mapper r
          (with_mapping api factory (record { object = r; mapping = none; client = none }) o)
  unfolding with_mapping
  with_mapping-IsFetched factory mapper r (err e) m = unmapped e m
  with_mapping-IsFetched factory mapper r (ok mapping) m =
      with_client-IsFetched factory mapper r mapping _ m refl

  fetch_info-IsFetched :
      (factory : t.FactoryType) (mapper : t.MapperType) (r : Unstructured)
      → IsFetched factory mapper r (fetch_info api factory mapper r)
  unfolding fetch_info
  fetch_info-IsFetched factory mapper r = with_mapping-IsFetched factory mapper r _ refl

  status_poller-given :
      (o : Option t.PollerType) (client : t.DynamicClientType) (mapper : t.MapperType)
      (checkers : t.CheckersType) (p : t.PollerType)
      → o ≡ some p
      → status_poller {t = t} o client mapper checkers ≡ given p
  unfolding status_poller
  status_poller-given none client mapper checkers p h = absurd (cc h)
  status_poller-given (some q) client mapper checkers p h = cc h

  status_poller-default :
      (o : Option t.PollerType) (client : t.DynamicClientType) (mapper : t.MapperType)
      (checkers : t.CheckersType)
      → o ≡ none
      → status_poller {t = t} o client mapper checkers
        ≡ by_default (new_default_status_poller client mapper checkers)
  unfolding status_poller
  status_poller-default none client mapper checkers h = refl
  status_poller-default (some q) client mapper checkers h = absurd (cc h)

  -- The builder holds a factory, a runner and a store.
  module _ (b : Builder t) (factory : t.FactoryType) (runner : t.RunnerType)
      (inventory : t.StoreType) (f : b.factory ≡ some factory) (r : b.runner ≡ some runner)
      (i : b.inventory ≡ some inventory) where
    build_fetched-IsBuildOutcome :
        (client : t.DynamicClientType) (mapper : t.MapperType) (o : Outcome t.MapperType)
        → api.dynamic_client factory ≡ ok client
        → api.to_rest_mapper factory ≡ ok mapper
        → api.to_rest_mapper_again factory ≡ o
        → IsBuildOutcome b (
            build_fetched api b runner inventory client mapper
              (default_info_fetcher_builder api factory o))
    unfolding build_fetched default_info_fetcher_builder
    build_fetched-IsBuildOutcome client mapper (err e) c m n =
        lacking _ (lacks_fetch_mapper factory e f n)
    build_fetched-IsBuildOutcome client mapper (ok again) c m n = built _ (record {
      factory = factory;
      fetch_mapper = again;
      has_factory = f;
      has_runner = r;
      has_inventory = i;
      has_client = c;
      has_mapper = m;
      has_fetch_mapper = n;
      fetches = fetch_info-IsFetched factory again;
      given_poller = status_poller-given b.poller client mapper b.custom_resource_check;
      default_poller = status_poller-default b.poller client mapper b.custom_resource_check;
      kept = (refl, refl, refl);
    })

    build_mapped-IsBuildOutcome :
        (client : t.DynamicClientType) (o : Outcome t.MapperType)
        → api.dynamic_client factory ≡ ok client
        → api.to_rest_mapper factory ≡ o
        → IsBuildOutcome b (build_mapped api b factory runner inventory client o)
    unfolding build_mapped
    build_mapped-IsBuildOutcome client (err e) c m = lacking _ (lacks_mapper factory e f m)
    build_mapped-IsBuildOutcome client (ok mapper) c m =
        build_fetched-IsBuildOutcome client mapper _ c m refl

    build_connected-IsBuildOutcome :
        (o : Outcome t.DynamicClientType)
        → api.dynamic_client factory ≡ o
        → IsBuildOutcome b (build_connected api b factory runner inventory o)
    unfolding build_connected
    build_connected-IsBuildOutcome (err e) c = lacking _ (lacks_client factory e f c)
    build_connected-IsBuildOutcome (ok client) c = build_mapped-IsBuildOutcome client _ c refl

  build_checked-IsBuildOutcome :
      (b : Builder t) (factory : Option t.FactoryType) (runner : Option t.RunnerType)
      (inventory : Option t.StoreType)
      → b.factory ≡ factory
      → b.runner ≡ runner
      → b.inventory ≡ inventory
      → IsBuildOutcome b (build_checked api b factory runner inventory)
  unfolding build_checked
  build_checked-IsBuildOutcome b none runner inventory f r i = lacking _ (lacks_factory f)
  build_checked-IsBuildOutcome b (some factory) none inventory f r i = lacking _ (lacks_runner r)
  build_checked-IsBuildOutcome b (some factory) (some runner) none f r i =
      lacking _ (lacks_inventory i)
  build_checked-IsBuildOutcome b (some factory) (some runner) (some inventory) f r i =
      build_connected-IsBuildOutcome b factory runner inventory f r i _ refl

  -- Build returns an error only where the builder lacks a factory, a runner or a store, or its factory
  -- fails to give the client or the mapper. Else the applier has the parts of the builder and what the
  -- factory gives, the poller of the builder or else the default one, and its fetcher gives of each
  -- object the mapping and a client for this mapping, or the error of the one that failed.
  pub build_applier-IsBuildOutcome : (b : Builder t) → IsBuildOutcome b (build_applier api b)
  unfolding build_applier
  build_applier-IsBuildOutcome b =
      build_checked-IsBuildOutcome b b.factory b.runner b.inventory refl refl refl
