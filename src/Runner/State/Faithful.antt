-- ===== src/Runner/State/Faithful.antt =====
-- The manager holds what the events said last of each object.
use mathlib.Core.List.{Nodup}
use jpl.Base.{
  List, [], ◌∷◌, ◌++◌, Option, none, some, ◌≡◌, refl, sym, ◌∙◌, ap, arith, if◌then◌else◌,
}
use jpl.Base.Maps.{get, keys}
use jpl.Base.Sets.{is_same}
use jpl.Event.{
  Event, type_error, type_queue, type_apply, type_prune, type_inventory, type_status_update, Status,
  status_pending, status_successful, status_failed, status_skipped,
}
use jpl.Inventory.Manager.{
  ObjectStatus, Manager, apply_successfull, apply_failed, delete_successfull, delete_failed,
  skipped, set_status,
}
use jpl.Inventory.Manager.Saved.{get-set_status, set_status-Nodup}
use jpl.Resource.Object.{Unstructured, object_discrete}
use jpl.Runner.State.{
  RunnerState, register_apply, register_prune, register_event_in_manager, send_event,
}

-- What the outcome of an apply, or of a prune, says of its object.
abbrev pub applied : Status → Option ObjectStatus
applied status_successful = some apply_successfull
applied status_failed = some apply_failed
applied status_skipped = some skipped
applied status_pending = none

abbrev pub pruned : Status → Option ObjectStatus
pruned status_successful = some delete_successfull
pruned status_failed = some delete_failed
pruned status_skipped = none
pruned status_pending = none

abbrev of_object : Unstructured → Unstructured → Option ObjectStatus → Option ObjectStatus
of_object obj other said = if is_same object_discrete other obj then said else none

-- What an event says of an object.
abbrev pub says : Unstructured → Event → Option ObjectStatus
says obj (type_apply i) = of_object obj i.object (applied i.status)
says obj (type_prune i) = of_object obj i.object (pruned i.status)
says obj (type_error e) = none
says obj (type_queue objs) = none
says obj (type_inventory i) = none
says obj (type_status_update i) = none

abbrev or_before : Option ObjectStatus → Option ObjectStatus → Option ObjectStatus
or_before none before = before
or_before (some now) before = some now

-- The last that the events say of an object, after what was known before.
abbrev pub last_said : Unstructured → Option ObjectStatus → List Event → Option ObjectStatus
last_said obj known [] = known
last_said obj known (e ∷ es) = last_said obj (or_before (says obj e) known) es

last_said-append :
    (obj : Unstructured) (known : Option ObjectStatus) (es : List Event) (e : Event)
    → last_said obj known (es ++ (e ∷ [])) ≡ or_before (says obj e) (last_said obj known es)
last_said-append obj known [] e = refl
last_said-append obj known (x ∷ es) e = last_said-append obj (or_before (says obj x) known) es e

register_apply-get :
    (status : Status) (k obj : Unstructured) (m : Manager)
    → get object_discrete obj (register_apply status k m).object_statuses
      ≡ or_before (of_object obj k (applied status)) (get object_discrete obj m.object_statuses)
unfolding register_apply
register_apply-get status_successful k obj m =
    ground (arith, get-set_status k obj apply_successfull m)
register_apply-get status_failed k obj m = ground (arith, get-set_status k obj apply_failed m)
register_apply-get status_skipped k obj m = ground (arith, get-set_status k obj skipped m)
register_apply-get status_pending k obj m = ground arith

register_prune-get :
    (status : Status) (k obj : Unstructured) (m : Manager)
    → get object_discrete obj (register_prune status k m).object_statuses
      ≡ or_before (of_object obj k (pruned status)) (get object_discrete obj m.object_statuses)
unfolding register_prune
register_prune-get status_successful k obj m =
    ground (arith, get-set_status k obj delete_successfull m)
register_prune-get status_failed k obj m = ground (arith, get-set_status k obj delete_failed m)
register_prune-get status_skipped k obj m = ground arith
register_prune-get status_pending k obj m = ground arith

pub register-get :
    (e : Event) (obj : Unstructured) (m : Manager)
    → get object_discrete obj (register_event_in_manager e m).object_statuses
      ≡ or_before (says obj e) (get object_discrete obj m.object_statuses)
unfolding register_event_in_manager
register-get (type_apply i) obj m = register_apply-get i.status i.object obj m
register-get (type_prune i) obj m = register_prune-get i.status i.object obj m
register-get (type_error e) obj m = refl
register-get (type_queue objs) obj m = refl
register-get (type_inventory i) obj m = refl
register-get (type_status_update i) obj m = refl

register-Nodup :
    (e : Event) (m : Manager)
    → Nodup (keys m.object_statuses)
    → Nodup (keys (register_event_in_manager e m).object_statuses)
unfolding register_event_in_manager register_apply register_prune
register-Nodup (type_apply i) m h =
    elim i.status as (λ s. Nodup (keys (register_apply s i.object m).object_statuses)) [
      | status_successful ↦ set_status-Nodup i.object apply_successfull m h
      | status_failed ↦ set_status-Nodup i.object apply_failed m h
      | status_skipped ↦ set_status-Nodup i.object skipped m h
      | status_pending ↦ h
    ]
register-Nodup (type_prune i) m h =
    elim i.status as (λ s. Nodup (keys (register_prune s i.object m).object_statuses)) [
      | status_successful ↦ set_status-Nodup i.object delete_successfull m h
      | status_failed ↦ set_status-Nodup i.object delete_failed m h
      | status_skipped ↦ h
      | status_pending ↦ h
    ]
register-Nodup (type_error e) m h = h
register-Nodup (type_queue objs) m h = h
register-Nodup (type_inventory i) m h = h
register-Nodup (type_status_update i) m h = h

register_apply-starting :
    (status : Status) (k : Unstructured) (m : Manager)
    → (register_apply status k m).starting_objects ≡ m.starting_objects
unfolding register_apply set_status
register_apply-starting status k m = ground arith

register_prune-starting :
    (status : Status) (k : Unstructured) (m : Manager)
    → (register_prune status k m).starting_objects ≡ m.starting_objects
unfolding register_prune set_status
register_prune-starting status k m = ground arith

pub register-starting :
    (e : Event) (m : Manager)
    → (register_event_in_manager e m).starting_objects ≡ m.starting_objects
unfolding register_event_in_manager
register-starting (type_apply i) m = register_apply-starting i.status i.object m
register-starting (type_prune i) m = register_prune-starting i.status i.object m
register-starting (type_error e) m = refl
register-starting (type_queue objs) m = refl
register-starting (type_inventory i) m = refl
register-starting (type_status_update i) m = refl

module _ {R : Type 0} where
  -- The statuses are a map, of what the events say last.
  pub record IsFaithful (s : RunnerState R) : Type 0 where
    pub distinct : Nodup (keys s.manager.object_statuses)
    pub last :
        (obj : Unstructured)
        → get object_discrete obj s.manager.object_statuses ≡ last_said obj none s.events

  pub send_event-IsFaithful :
      (e : Event) (s : RunnerState R) → IsFaithful s → IsFaithful (send_event e s)
  unfolding send_event
  send_event-IsFaithful e s h = record {
    distinct = register-Nodup e s.manager h.distinct;
    last = λ obj.
        register-get e obj s.manager
        ∙ ap (or_before (says obj e)) (h.last obj)
        ∙ sym (last_said-append obj none s.events e);
  }
