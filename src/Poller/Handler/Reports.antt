-- ===== src/Poller/Handler/Reports.antt =====
-- What the handlers report, whatever they are given.
use jpl.Base.{
  Str, List, [], ◌∷◌, ◌++◌, none, some, Bool, true, false, ◌≡◌, refl, Bool-cases, inl, inr,
  if◌then◌else◌,
}
use jpl.Base.Sets.{contains}
use jpl.Remote.{Error, is_context_error}
use jpl.Event.{Event, StatusUpdateInfo, type_error, type_status_update}
use jpl.Poller.Result.{Answer, answer, panic}
use jpl.Poller.Object.{Api}
use jpl.Poller.Check.{CustomStatusCheckers, status_check}
use jpl.Resource.Object.{
  ObjectMetadata, Unstructured, metadata_discrete, object_metadata_from_unstructured,
}
use jpl.Poller.Handler.{
  Received, Notification, an_object, another, final_object, final_another, added, updated, deleted,
  cancelled, Handled, handle_informer_error, event_from_result, unexpected_type, checked,
  filter_object, observe, observed, gone, removed, handle, handle_all, final_type,
}

module _ (object_to_observe : List ObjectMetadata) where
  abbrev pub IsObserved : ObjectMetadata → Type 0
  IsObserved id = contains metadata_discrete id object_to_observe ≡ true

  -- Status updates of observed objects, and after them at most one error, with nothing behind it.
  pub data IsReport : List Event → Type 0 where
    silent : IsReport []
    error_last : (e : Error) → IsReport (type_error e ∷ [])
    update :
        (i : StatusUpdateInfo) {es : List Event}
        → IsObserved i.object_metadata
        → IsReport es
        → IsReport (type_status_update i ∷ es)

  -- One call: nothing, a status update of an observed object, or an error that stops the multiplexer.
  data IsCall : Handled → Type 0 where
    quiet : (stops panics : Bool) → IsCall (record { events = []; stops = stops; panics = panics })
    errs :
        (e : Error) → IsCall (record { events = type_error e ∷ []; stops = true; panics = false })
    updates :
        (i : StatusUpdateInfo)
        → IsObserved i.object_metadata
        → IsCall (record { events = type_status_update i ∷ []; stops = false; panics = false })

  handle_informer_error-IsCall : (e : Error) → IsCall (handle_informer_error e)
  unfolding handle_informer_error
  handle_informer_error-IsCall e = elim (Bool-cases (is_context_error e)) [
    | inl c ↦ rw c (quiet false false)
    | inr c ↦ rw c (errs e)
  ]

  checked-IsCall :
      (check_error : Str → Error) (obj : Unstructured) (a : Answer)
      → IsObserved (object_metadata_from_unstructured obj)
      → IsCall (checked check_error obj a)
  unfolding checked event_from_result
  checked-IsCall check_error obj panic h = quiet false true
  checked-IsCall check_error obj (answer r (some text)) h =
      handle_informer_error-IsCall (check_error text)
  checked-IsCall check_error obj (answer none none) h = quiet false true
  checked-IsCall check_error obj (answer (some r) none) h = updates _ h

  module _ (api : Api) (checkers : CustomStatusCheckers) (check_error : Str → Error) where
    observe-IsCall :
        (obj : Unstructured) → IsCall (observe api checkers check_error object_to_observe obj)
    unfolding observe filter_object
    observe-IsCall obj =
        elim (Bool-cases
          (contains metadata_discrete (object_metadata_from_unstructured obj) object_to_observe)) [
            | inl e ↦ rw e (checked-IsCall check_error obj (status_check api checkers obj) e)
            | inr e ↦ rw e (quiet false false)
          ]

    gone-IsCall :
        (obj : Unstructured) → IsCall (gone api checkers check_error object_to_observe obj)
    unfolding gone filter_object event_from_result
    gone-IsCall obj =
        elim (Bool-cases
          (contains metadata_discrete (object_metadata_from_unstructured obj) object_to_observe)) [
            | inl e ↦ rw e (updates _ e)
            | inr e ↦ rw e (quiet false false)
          ]

    unexpected_type-IsCall : (name : Str) → IsCall (unexpected_type name)
    unfolding unexpected_type
    unexpected_type-IsCall name = handle_informer_error-IsCall _

    observed-IsCall :
        (obj : Received) → IsCall (observed api checkers check_error object_to_observe obj)
    unfolding observed
    observed-IsCall (an_object obj) = observe-IsCall obj
    observed-IsCall (another name) = unexpected_type-IsCall name
    observed-IsCall (final_object obj) = unexpected_type-IsCall final_type
    observed-IsCall (final_another name) = unexpected_type-IsCall final_type

    removed-IsCall :
        (obj : Received) → IsCall (removed api checkers check_error object_to_observe obj)
    unfolding removed
    removed-IsCall (an_object obj) = gone-IsCall obj
    removed-IsCall (final_object obj) = gone-IsCall obj
    removed-IsCall (another name) = unexpected_type-IsCall name
    removed-IsCall (final_another name) = unexpected_type-IsCall name

    handle-IsCall :
        (n : Notification) → IsCall (handle api checkers check_error object_to_observe false n)
    unfolding handle
    handle-IsCall (added obj) = observed-IsCall obj
    handle-IsCall (updated obj) = observed-IsCall obj
    handle-IsCall (deleted obj) = removed-IsCall obj
    handle-IsCall cancelled = quiet true false

    ended-silent :
        (ns : List Notification)
        → handle_all api checkers check_error object_to_observe true ns ≡ []
    unfolding handle_all handle
    ended-silent [] = refl
    ended-silent (n ∷ ns) = ended-silent ns

    followed :
        (h : Handled) (later : Bool → List Event)
        → IsCall h
        → later true ≡ []
        → IsReport (later false)
        → IsReport (h.events ++ (if h.panics then [] else later (if h.stops then true else false)))
    followed h later (quiet stops true) ended report = silent
    followed h later (quiet true false) ended report = rw ended silent
    followed h later (quiet false false) ended report = report
    followed h later (errs e) ended report = rw ended (error_last e)
    followed h later (updates i o) ended report = update i o report

    -- Whatever the informers report, the event handlers of one multiplexer, called one after the other,
    -- send status updates of observed objects only, and after an error that they send nothing more.
    pub handle_all-IsReport :
        (ns : List Notification)
        → IsReport (handle_all api checkers check_error object_to_observe false ns)
    unfolding handle_all
    handle_all-IsReport [] = silent
    handle_all-IsReport (n ∷ ns) =
        followed (handle api checkers check_error object_to_observe false n)
          (λ ended. handle_all api checkers check_error object_to_observe ended ns)
          (handle-IsCall n) (ended-silent ns) (handle_all-IsReport ns)
