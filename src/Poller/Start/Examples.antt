-- ===== src/Poller/Start/Examples.antt =====
-- Two config maps and a secret of one namespace, with an informer of secrets that cannot be made.
use mathlib.Core.List.{List, [], ◌∷◌, map, mem-cons_self}
use mathlib.Core.List.Perm
use jpl.Base.{codes, str_discrete, Option, none, some, Bool, true, false, refl}
use jpl.Base.Sets.{is_same}
use jpl.Remote.{Error, new_error}
use jpl.Resource.Object.{Unstructured}
use jpl.Poller.Start.{
  InformerResource, informer_resource_of, InformerApi, InformerMultiplexer, Turn, Returned,
  start_informers, run_multiplexer, start_poller,
}
use jpl.Poller.Start.Covers.{IsCovered, start_poller-covers}
use jpl.Poller.Start.Consistent.{IsMultiplexerRun, run_multiplexer-IsMultiplexerRun}

abbrev is_secret : InformerResource → Bool
is_secret r = is_same str_discrete r.group_kind.kind (codes "Secret")

abbrev if_secret : Bool → Option Error
if_secret true = some (new_error "no secrets")
if_secret false = none

abbrev api : InformerApi
api = record {
  new_informer = λ r. if_secret (is_secret r);
  set_watch_error_handler = λ r. none;
  add_event_handler = λ r. none;
}

abbrev config_map : Unstructured
config_map = record {
  address = 1;
  gvk = record { group = []; version = codes "v1"; kind = codes "ConfigMap" };
  name = codes "one";
  namespace = codes "apps";
  annotations = [];
}

abbrev secret : Unstructured
secret = record config_map {
  address = 2;
  gvk = record { group = []; version = codes "v1"; kind = codes "Secret" };
}

abbrev objects : List Unstructured
objects = config_map ∷ record config_map { address = 3; name = codes "two" } ∷ secret ∷ []

abbrev turns : List Turn
turns =
    record { resource = informer_resource_of config_map; ends_first = false; ends_then = false }
    ∷ record { resource = informer_resource_of secret; ends_first = false; ends_then = false }
    ∷ []

start_poller-covers_example :
    IsCovered api
      (start_informers api turns (start_poller (λ s. s) false objects).1)
      (informer_resource_of config_map)
unfolding start_poller run_multiplexer jpl.Poller.Start.run_again
    jpl.Poller.Start.resources_and_ids_from_objects jpl.Poller.Start.resources_from
    jpl.Base.Sets.insert jpl.Poller.Start.informer_resource_discrete
start_poller-covers_example =
    start_poller-covers api (λ s. s) false objects turns config_map (λ s. Perm.refl s) (Perm.refl _)
      mem-cons_self

abbrev fresh_multiplexer : InformerMultiplexer
fresh_multiplexer = record {
  resources = map (λ (t : Turn). t.resource) turns;
  object_to_observe = [];
  done = false;
  channels = [];
  informers = [];
  running = false;
  stopped = false;
}

run_multiplexer-IsMultiplexerRun_example :
    IsMultiplexerRun api fresh_multiplexer turns (run_multiplexer false fresh_multiplexer)
run_multiplexer-IsMultiplexerRun_example =
    run_multiplexer-IsMultiplexerRun api false fresh_multiplexer turns
