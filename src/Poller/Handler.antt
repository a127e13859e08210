-- ===== src/Poller/Handler.antt =====
-- pkg/poller/informerMultiplexer.go: the handlers of what an informer of client-go reports, and of the
-- errors of its watch. What errors.Is and apierrors say of an error stands in its reason.
pub mod Reports
use Prim.Native.String.{String}
use jpl.Base.{
  Str, codes, List, [], ◌∷◌, ◌++◌, Option, none, some, Bool, true, false, not, if◌then◌else◌,
}
use jpl.Base.Sets.{contains}
use jpl.Remote.{Error, other_reason, is_context_error, is_forbidden}
use jpl.Event.{
  Event, Status, type_error, type_status_update, status_pending, status_successful, status_failed,
}
use jpl.Poller.Result.{
  Result, Message, Answer, answer, panic, status_in_progress, status_failed as failed,
  status_terminating, status_current, terminating_result, deletion_message,
}
use jpl.Poller.Object.{Api}
use jpl.Poller.Check.{CustomStatusCheckers, status_check}
use jpl.Resource.Object.{
  ObjectMetadata, Unstructured, metadata_discrete, object_metadata_from_unstructured,
}

-- What a handler is given: an object, a value of another type, by its name, or a
-- DeletedFinalStateUnknown around either.
pub data Received : Type 0 where
  an_object : Unstructured → Received
  another : Str → Received
  final_object : Unstructured → Received
  final_another : Str → Received

pub data Notification : Type 0 where
  added : Received → Notification
  updated : Received → Notification
  deleted : Received → Notification
  -- The context ends from outside.
  cancelled : Notification

-- What a call does: the events that it sends, whether it stops the multiplexer, whether it panics.
pub record Handled : Type 0 where
  pub events : List Event
  pub stops : Bool
  pub panics : Bool

abbrev pub nothing : Handled
nothing = record { events = []; stops = false; panics = false }

abbrev sends : Event → Handled
sends e = record { events = e ∷ []; stops = false; panics = false }

-- handleInformerError, with handleBlockingError and Stop
unfoldable pub handle_informer_error : Error → Handled
handle_informer_error e =
    if is_context_error e
    then nothing
    else record { events = type_error e ∷ []; stops = true; panics = false }

-- watchErrorHandler: of all errors only a forbidden one is reported.
unfoldable pub watch_error_handler : Error → Handled
watch_error_handler e = if is_forbidden e then handle_informer_error e else nothing

abbrev event_status : Result → Status
event_status r = elim r.status [
  | status_current ↦ status_successful
  | status_in_progress ↦ status_pending
  | status_terminating ↦ status_pending
  | failed ↦ status_failed
]

-- eventFromResult
event_from_result : Result → Unstructured → Event
event_from_result r obj = type_status_update (record {
  status = event_status r;
  message = r.message;
  object_metadata = object_metadata_from_unstructured obj;
})

unfoldable pub unexpected_type : Str → Handled
unexpected_type name = handle_informer_error (record {
  text = codes "informer received unexpected object type " ++ name;
  reason = other_reason;
})

-- After statusCheck; eventFromResult of a nil result panics.
checked : (Str → Error) → Unstructured → Answer → Handled
checked check_error obj panic = record { events = []; stops = false; panics = true }
checked check_error obj (answer r (some text)) = handle_informer_error (check_error text)
checked check_error obj (answer none none) = record { events = []; stops = false; panics = true }
checked check_error obj (answer (some r) none) = sends (event_from_result r obj)

-- The name of the type of a DeletedFinalStateUnknown.
abbrev final_type : Str
final_type = codes "cache.DeletedFinalStateUnknown"

module _ (api : Api) (checkers : CustomStatusCheckers) (check_error : Str → Error)
    (object_to_observe : List ObjectMetadata) where
  -- filterObject
  pub filter_object : Unstructured → Bool
  filter_object obj =
      not (contains metadata_discrete (object_metadata_from_unstructured obj) object_to_observe)

  pub observe : Unstructured → Handled
  observe obj =
      if filter_object obj then nothing else checked check_error obj (status_check api checkers obj)

  -- AddFunc and UpdateFunc
  pub observed : Received → Handled
  observed (an_object obj) = observe obj
  observed (another name) = unexpected_type name
  observed (final_object obj) = unexpected_type final_type
  observed (final_another name) = unexpected_type final_type

  pub gone : Unstructured → Handled
  gone obj =
      if filter_object obj
      then nothing
      else sends (event_from_result (terminating_result deletion_message) obj)

  -- DeleteFunc
  unfoldable pub removed : Received → Handled
  removed (an_object obj) = gone obj
  removed (final_object obj) = gone obj
  removed (another name) = unexpected_type name
  removed (final_another name) = unexpected_type name

  -- A handler, unless the context has ended.
  unfoldable pub handle : Bool → Notification → Handled
  handle true n = nothing
  handle false (added obj) = observed obj
  handle false (updated obj) = observed obj
  handle false (deleted obj) = removed obj
  handle false cancelled = record { events = []; stops = true; panics = false }

  -- The notifications one after the other: Stop ends the context of those that follow, a panic ends
  -- the program.
  unfoldable pub handle_all : Bool → List Notification → List Event
  handle_all ended [] = []
  handle_all ended (n ∷ ns) =
      let h = handle ended n in
      let later = handle_all (if h.stops then true else ended) ns in
      h.events ++ (if h.panics then [] else later)

-- What the reflector's goroutine sends on the channel of its informer: watchErrorHandler, called one
-- after the other. It sends without a look at the context.
unfoldable pub watch_all : List Error → List Event
unfolding watch_error_handler
watch_all [] = []
watch_all (e ∷ es) = (watch_error_handler e).events ++ watch_all es
