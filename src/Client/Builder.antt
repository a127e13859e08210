-- ===== src/Client/Builder.antt =====
-- pkg/client/builder.go: the builder of an Applier, with DefaultInfoFetcherBuilder of
-- pkg/runner/task/apply.go.
-- What the factory answers to each call is a parameter; the interfaces are any types, and a nil one is
-- `none`.
pub mod Built
use jpl.Base.{ℕ, Str, codes, str_discrete, List, [], ◌∷◌, Option, none, some, if◌then◌else◌}
use Prim.Native.Nat.{◌*◌}
use jpl.Base.Sets.{is_same}
use jpl.Remote.{Error, Outcome, ok, err, wrap, new_error}
use jpl.Resource.Object.{GroupKind, GroupVersionKind, Unstructured, group_kind_of}

-- The types of the interfaces that the builder holds.
pub record Types : Type 1 where
  pub FactoryType : Type 0
  pub RunnerType : Type 0
  pub StoreType : Type 0
  pub GeneratorType : Type 0
  pub MutatorType : Type 0
  pub FilterType : Type 0
  pub PollerType : Type 0
  pub CheckersType : Type 0
  pub DynamicClientType : Type 0
  pub MapperType : Type 0
  pub RestClientType : Type 0
  pub MappingType : Type 0

module _ (t : Types) where
  pub record Builder : Type 0 where
    pub factory : Option t.FactoryType
    pub runner : Option t.RunnerType
    pub inventory : Option t.StoreType
    pub generators : List t.GeneratorType
    pub mutators : List t.MutatorType
    pub filters : List t.FilterType
    pub poller : Option t.PollerType
    pub custom_resource_check : t.CheckersType

  -- defaultStatusPoller; the period is in seconds.
  pub record DefaultStatusPoller : Type 0 where
    pub client : t.DynamicClientType
    pub mapper : t.MapperType
    pub resync : ℕ
    pub status_checkers : t.CheckersType

  -- The poller of an applier: one that the builder was given, or the default one.
  pub data AnyPoller : Type 0 where
    given : t.PollerType → AnyPoller
    by_default : DefaultStatusPoller → AnyPoller

  -- What the factory answers: ToRESTMapper is called twice.
  pub record FactoryApi : Type 0 where
    pub dynamic_client : t.FactoryType → Outcome t.DynamicClientType
    pub to_rest_mapper : t.FactoryType → Outcome t.MapperType
    pub to_rest_mapper_again : t.FactoryType → Outcome t.MapperType
    pub rest_mapping : t.MapperType → GroupKind → Str → Outcome t.MappingType
    pub unstructured_client_for_mapping : t.FactoryType → t.MappingType → Outcome t.RestClientType
    pub new_task_runner : t.RunnerType
    pub no_checkers : t.CheckersType

  -- resource.Info
  pub record Info : Type 0 where
    pub object : Unstructured
    pub mapping : Option t.MappingType
    pub client : Option t.RestClientType

  pub record ApplierParts : Type 0 where
    pub client : t.DynamicClientType
    pub mapper : t.MapperType
    pub runner : t.RunnerType
    pub inventory : t.StoreType
    pub info_fetcher : Unstructured → Info × Option Error
    pub generators : List t.GeneratorType
    pub mutators : List t.MutatorType
    pub filters : List t.FilterType
    pub poller : AnyPoller

module _ {t : Types} where
  -- The methods With…
  pub with_factory : Option t.FactoryType → Builder t → Builder t
  with_factory factory b = record b { factory = factory }

  pub with_inventory : Option t.StoreType → Builder t → Builder t
  with_inventory inventory b = record b { inventory = inventory }

  pub with_generators : List t.GeneratorType → Builder t → Builder t
  with_generators generators b = record b { generators = generators }

  pub with_mutator : List t.MutatorType → Builder t → Builder t
  with_mutator mutators b = record b { mutators = mutators }

  pub with_filters : List t.FilterType → Builder t → Builder t
  with_filters filters b = record b { filters = filters }

  pub with_status_poller : Option t.PollerType → Builder t → Builder t
  with_status_poller poller b = record b { poller = poller }

  pub with_custom_status_checker : t.CheckersType → Builder t → Builder t
  with_custom_status_checker checkers b = record b { custom_resource_check = checkers }

  -- NewDefaultStatusPoller
  pub new_default_status_poller :
      t.DynamicClientType → t.MapperType → t.CheckersType → DefaultStatusPoller t
  new_default_status_poller client mapper checkers = record {
    client = client;
    mapper = mapper;
    resync = 5 * 60;
    status_checkers = checkers;
  }

  status_poller :
      Option t.PollerType → t.DynamicClientType → t.MapperType → t.CheckersType → AnyPoller t
  status_poller (some poller) client mapper checkers = given poller
  status_poller none client mapper checkers =
      by_default (new_default_status_poller client mapper checkers)

  module _ (api : FactoryApi t) where
    -- NewBuilder
    pub new_builder : Builder t
    new_builder = record {
      factory = none;
      runner = some api.new_task_runner;
      inventory = none;
      generators = [];
      mutators = [];
      filters = [];
      poller = none;
      custom_resource_check = api.no_checkers;
    }

    with_client : Info t → Outcome t.RestClientType → Info t × Option Error
    with_client info (err e) = (info, some e)
    with_client info (ok c) = (record info { client = some c }, none)

    with_mapping : t.FactoryType → Info t → Outcome t.MappingType → Info t × Option Error
    with_mapping factory info (err e) = (info, some e)
    with_mapping factory info (ok mapping) =
        with_client (record info { mapping = some mapping })
          (api.unstructured_client_for_mapping factory mapping)

    -- The function that DefaultInfoFetcherBuilder returns.
    pub fetch_info : t.FactoryType → t.MapperType → Unstructured → Info t × Option Error
    fetch_info factory mapper r =
        with_mapping factory (record { object = r; mapping = none; client = none })
          (api.rest_mapping mapper (group_kind_of r) r.gvk.version)

    -- DefaultInfoFetcherBuilder, on the mapper
    pub default_info_fetcher_builder :
        t.FactoryType → Outcome t.MapperType → Outcome (Unstructured → Info t × Option Error)
    default_info_fetcher_builder factory (err e) = err e
    default_info_fetcher_builder factory (ok mapper) = ok (fetch_info factory mapper)

    build_fetched :
        Builder t
        → t.RunnerType
        → t.StoreType
        → t.DynamicClientType
        → t.MapperType
        → Outcome (Unstructured → Info t × Option Error)
        → Outcome (ApplierParts t)
    build_fetched b runner inventory client mapper (err e) =
        err (wrap "failed to retrieve a valid Info Fetcher: " e)
    build_fetched b runner inventory client mapper (ok fetcher) = ok (record {
      client = client;
      mapper = mapper;
      runner = runner;
      inventory = inventory;
      info_fetcher = fetcher;
      generators = b.generators;
      mutators = b.mutators;
      filters = b.filters;
      poller = status_poller b.poller client mapper b.custom_resource_check;
    })

    build_mapped :
        Builder t
        → t.FactoryType
        → t.RunnerType
        → t.StoreType
        → t.DynamicClientType
        → Outcome t.MapperType
        → Outcome (ApplierParts t)
    build_mapped b factory runner inventory client (err e) =
        err (wrap "failed to retrieve a valid RESTMapper: " e)
    build_mapped b factory runner inventory client (ok mapper) =
        build_fetched b runner inventory client mapper
          (default_info_fetcher_builder factory (api.to_rest_mapper_again factory))

    build_connected :
        Builder t
        → t.FactoryType
        → t.RunnerType
        → t.StoreType
        → Outcome t.DynamicClientType
        → Outcome (ApplierParts t)
    build_connected b factory runner inventory (err e) =
        err (wrap "failed to retrieve a valid kubernetes client: " e)
    build_connected b factory runner inventory (ok client) =
        build_mapped b factory runner inventory client (api.to_rest_mapper factory)

    build_checked :
        Builder t
        → Option t.FactoryType
        → Option t.RunnerType
        → Option t.StoreType
        → Outcome (ApplierParts t)
    build_checked b none runner inventory =
        err (new_error "cannot build an Applier client without a valid factory")
    build_checked b (some factory) none inventory =
        err (new_error "cannot build an Applier client without a valid runner")
    build_checked b (some factory) (some runner) none =
        err (new_error "cannot build an Applier client without a valid inventory")
    build_checked b (some factory) (some runner) (some inventory) =
        build_connected b factory runner inventory (api.dynamic_client factory)

    -- Build
    pub build_applier : Builder t → Outcome (ApplierParts t)
    build_applier b = build_checked b b.factory b.runner b.inventory
