-- ===== src/Poller/Start.antt =====
-- pkg/poller: the start of a poller (poller.go), and of the informers of its multiplexer
-- (informerMultiplexer.go, informer.go).
-- The informers of client-go are a parameter: whether they can be made and accept the handlers. The lock
-- of the map makes each goroutine of startInformer one step; the context may end from outside before
-- either of its calls of AddChannel.
pub mod Covers
pub mod Consistent
mod Examples
use mathlib.Core.Bool.{decide}
use jpl.Base.{
  Str, str_discrete, List, [], ◌∷◌, ◌++◌, Option, none, some, Bool, true, false, ◌||◌,
  if◌then◌else◌, ap, dec_both, ◌≡◌,
}
use jpl.Base.Sets.{insert, contains}
use jpl.Remote.{Error, new_error}
use jpl.Event.{Event, type_error}
use jpl.Poller.Handler.{handle_informer_error}
use jpl.Resource.Object.{
  GroupKind, ObjectMetadata, Unstructured, group_kind_of, group_kind_discrete,
  object_metadata_from_unstructured,
}

pub record InformerResource : Type 0 where
  pub group_kind : GroupKind
  pub namespace : Str

pub InformerResource-ext :
    {a b : InformerResource} → a.group_kind ≡ b.group_kind → a.namespace ≡ b.namespace → a ≡ b
InformerResource-ext p q = λ i. record { group_kind = p i; namespace = q i }

unfoldable pub informer_resource_discrete : Discrete InformerResource
unfolding group_kind_discrete str_discrete
informer_resource_discrete a b =
    dec_both (group_kind_discrete a.group_kind b.group_kind) (str_discrete a.namespace b.namespace)
      InformerResource-ext (λ e. ap (λ (x : InformerResource). x.group_kind) e)
      (λ e. ap (λ (x : InformerResource). x.namespace) e)

abbrev pub informer_resource_of : Unstructured → InformerResource
informer_resource_of obj = record { group_kind = group_kind_of obj; namespace = obj.namespace }

-- The loop of resourcesAndIDsFromObjects: the set, and the identities.
pub resources_from : List Unstructured → List InformerResource → List InformerResource
resources_from [] results = results
resources_from (obj ∷ objs) results =
    resources_from objs (insert informer_resource_discrete (informer_resource_of obj) results)

pub ids_from : List Unstructured → List ObjectMetadata
ids_from [] = []
ids_from (obj ∷ objs) = object_metadata_from_unstructured obj ∷ ids_from objs

-- resourcesAndIDsFromObjects; UnsortedList takes the elements in any order.
pub resources_and_ids_from_objects :
    (List InformerResource → List InformerResource)
    → List Unstructured
    → List InformerResource × List ObjectMetadata
resources_and_ids_from_objects unsorted objs = (unsorted (resources_from objs []), ids_from objs)

-- The errors of newInformer, of SetWatchErrorHandler and of AddEventHandler.
pub record InformerApi : Type 0 where
  pub new_informer : InformerResource → Option Error
  pub set_watch_error_handler : InformerResource → Option Error
  pub add_event_handler : InformerResource → Option Error

-- A channel that the multiplexer of channels has: of an informer, or of an error.
pub data Channel : Type 0 where
  of_informer : InformerResource → Channel
  of_error : List Event → Channel

pub record InformerMultiplexer : Type 0 where
  pub resources : List InformerResource
  pub object_to_observe : List ObjectMetadata
  pub done : Bool
  pub channels : List Channel
  pub informers : List InformerResource
  pub running : Bool
  pub stopped : Bool

-- AddChannel, on whether the context has ended.
abbrev pub add_channel : Bool → Option Error
add_channel true = some (new_error "multiplexer is closed, we cannot add new channels")
add_channel false = none

or_error : Option Error → Option Error → Option Error
or_error (some e) next = some e
or_error none next = next

-- A turn of a goroutine: its resource, and whether the context ends before the first and before the
-- second call of AddChannel.
pub record Turn : Type 0 where
  pub resource : InformerResource
  pub ends_first : Bool
  pub ends_then : Bool

-- The error of the informer goes to a channel of its own, unless that is refused.
report_error : Error → InformerMultiplexer → Option Error → InformerMultiplexer
report_error e im (some refusal) = im
report_error e im none =
    let h = handle_informer_error e in
    record im { channels = im.channels ++ of_error h.events ∷ []; done = im.done || h.stops }

after_run : Turn → InformerMultiplexer → Option Error → InformerMultiplexer
after_run turn im (some e) =
    let im' : InformerMultiplexer = record im { done = im.done || turn.ends_then } in
    report_error e im' (add_channel im'.done)
after_run turn im none = record im {
  channels = im.channels ++ of_informer turn.resource ∷ [];
  informers = im.informers ++ turn.resource ∷ [];
}

module _ (api : InformerApi) where
  -- The error of runInformer, on whether the context has ended.
  pub run_informer : Bool → InformerResource → Option Error
  run_informer done r = or_error (api.new_informer r) (
      or_error (api.set_watch_error_handler r)
        (or_error (api.add_event_handler r) (add_channel done)))

  unless_found : Turn → InformerMultiplexer → Bool → InformerMultiplexer
  unless_found turn im true = im
  unless_found turn im false =
      let im' : InformerMultiplexer = record im { done = im.done || turn.ends_first } in
      after_run turn im' (run_informer im'.done turn.resource)

  -- The goroutine of startInformer.
  pub start_informer : Turn → InformerMultiplexer → InformerMultiplexer
  start_informer turn im =
      unless_found turn im (contains informer_resource_discrete turn.resource im.informers)

  pub start_informers : List Turn → InformerMultiplexer → InformerMultiplexer
  start_informers [] im = im
  start_informers (turn ∷ turns) im = start_informers turns (start_informer turn im)

-- What Run returns: the channel of an error, or the one that the others are forwarded into.
pub data Returned : Type 0 where
  error_channel : Event → Returned
  multiplexed_channel : Returned

run_again : Bool → Bool → InformerMultiplexer → Returned × InformerMultiplexer
run_again true ended im =
    (error_channel (type_error (new_error "cannot restart an already running informer")), im)
run_again false ended im =
    (multiplexed_channel, record im { done = ended; channels = []; informers = []; running = true })

-- Run, on whether its context has ended; the goroutines that it starts take their turns afterwards.
pub run_multiplexer : Bool → InformerMultiplexer → Returned × InformerMultiplexer
run_multiplexer ended im = run_again im.running ended im

-- The goroutine that waits for the end of the context.
pub note_stop : InformerMultiplexer → InformerMultiplexer
note_stop im = if im.done then record im { stopped = true } else im

-- Start, up to Run of the multiplexer that it makes.
pub start_poller :
    (List InformerResource → List InformerResource)
    → Bool
    → List Unstructured
    → Returned × InformerMultiplexer
start_poller unsorted ended objs =
    let (resources, ids) = resources_and_ids_from_objects unsorted objs in
    run_multiplexer ended (record {
      resources = resources;
      object_to_observe = ids;
      done = false;
      channels = [];
      informers = [];
      running = false;
      stopped = false;
    })
