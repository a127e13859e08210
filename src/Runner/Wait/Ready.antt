-- ===== src/Runner/Wait/Ready.antt =====
-- When WaitTask.Run stops waiting, and which messages it passes on.
use jpl.Base.{
  List, [], ◌∷◌, Bool, false, not, ◌&&◌, ◌||◌, ◌≡◌, ◌≢◌, refl, sym, ◌∙◌, ap, arith, All, Bool-cases,
  inl, inr,
}
use jpl.Base.Sets.{is_same, contains, contains-delete, contains-insert}
use jpl.Event.{
  Event, type_error, type_queue, type_apply, type_prune, type_inventory, type_status_update,
}
use jpl.Resource.Object.{
  Unstructured, ObjectMetadata, metadata_discrete, object_metadata_from_unstructured,
}
use jpl.Runner.State.{RunnerState, skip_wait_current_status}
use jpl.Runner.Wait.{
  Waited, waited, empty_metadata, receive, says_ready, updated_metadata, unless_all_ready,
  take_message, wait_loop, after_loop, wait_for, watched_metadata, poller_objects, run_wait,
}

-- Some message says that the resource is ready.
abbrev pub any_ready : ObjectMetadata → List Event → Bool
any_ready m [] = false
any_ready m (msg ∷ msgs) =
    (says_ready msg && is_same metadata_discrete (updated_metadata msg) m) || any_ready m msgs

module _ {R : Type 0} where
  receive-watched :
      (m : ObjectMetadata) (msg : Event) (w : Waited R)
      → contains metadata_discrete m (receive msg w).watched ≡ (
          contains metadata_discrete m w.watched
          && not (says_ready msg && is_same metadata_discrete (updated_metadata msg) m))
  unfolding receive
  receive-watched m msg w =
      ground (arith, contains-delete metadata_discrete (updated_metadata msg) m w.watched)

  unless_all_ready-watched :
      (m : ObjectMetadata) (next : Waited R → Waited R) (w : Waited R) (ready : Bool)
      → ((w' : Waited R)
          → contains metadata_discrete m (next w').watched
            ≡ (contains metadata_discrete m w'.watched && not ready))
      → contains metadata_discrete m (unless_all_ready next w.watched w).watched
        ≡ (contains metadata_discrete m w.watched && not ready)
  unfolding unless_all_ready contains
  unless_all_ready-watched m next w ready h = go w.watched refl
    where
      go :
          (left : List ObjectMetadata)
          → w.watched ≡ left
          → contains metadata_discrete m (unless_all_ready next left w).watched
            ≡ (contains metadata_discrete m w.watched && not ready)
      go [] e = rw e refl
      go (x ∷ xs) e = h w

  take_message-watched :
      (m : ObjectMetadata) (next : Waited R → Waited R) (msg : Event) (w : Waited R) (later : Bool)
      → ((w' : Waited R)
          → contains metadata_discrete m (next w').watched
            ≡ (contains metadata_discrete m w'.watched && not later))
      → contains metadata_discrete m
          (take_message next msg
            (contains metadata_discrete (updated_metadata msg) w.watched)
            w).watched
        ≡ (contains metadata_discrete m w.watched
            && not
                ((says_ready msg && is_same metadata_discrete (updated_metadata msg) m) || later))
  unfolding take_message
  take_message-watched m next msg w later h =
      elim (Bool-cases (contains metadata_discrete (updated_metadata msg) w.watched)) [
        | inl e ↦
            rw (e, take_message)
              (unless_all_ready-watched m next (receive msg w) later h
                ∙ ground (arith, receive-watched m msg w))
        | inr e ↦ rw (e, take_message) (h w ∙ ground arith)
      ]

  -- A resource is watched at the end of the loop exactly when it was at its beginning and no message
  -- said that it is ready, also where the loop ends early because nothing is left to watch.
  pub wait_loop-watched :
      (m : ObjectMetadata) (msgs : List Event) (w : Waited R)
      → contains metadata_discrete m (wait_loop msgs w).watched
        ≡ (contains metadata_discrete m w.watched && not (any_ready m msgs))
  unfolding wait_loop
  wait_loop-watched m [] w = ground arith
  wait_loop-watched m (msg ∷ msgs) w =
      take_message-watched m (wait_loop msgs) msg w (any_ready m msgs) (wait_loop-watched m msgs)

  -- Messages of what is not watched change nothing.
  wait_loop-unwatched :
      (msgs : List Event) (w : Waited R)
      → All (λ msg. contains metadata_discrete (updated_metadata msg) w.watched ≡ false) msgs
      → wait_loop msgs w ≡ w
  unfolding wait_loop take_message
  wait_loop-unwatched [] w h = refl
  wait_loop-unwatched (msg ∷ msgs) w h =
      ap (λ b. take_message (wait_loop msgs) msg b w) h.0 ∙ wait_loop-unwatched msgs w h.1

watched_metadata-contains :
    (objs : List Unstructured) (set : List ObjectMetadata)
    → All (λ (obj : Unstructured). obj.name ≢ []) objs
    → contains metadata_discrete empty_metadata set ≡ false
    → contains metadata_discrete empty_metadata (watched_metadata objs set) ≡ false
unfolding watched_metadata contains object_metadata_from_unstructured
watched_metadata-contains [] set h c = c
watched_metadata-contains (obj ∷ objs) set h c = watched_metadata-contains objs _ h.1 (
    contains-insert metadata_discrete (object_metadata_from_unstructured obj) empty_metadata set
    ∙ ground (arith, different))
  where
    different : empty_metadata ≢ object_metadata_from_unstructured obj
    different e = h.0 (sym (ap (λ (m : ObjectMetadata). m.name) e))

-- An error of the poller.
abbrev pub IsErrorMessage : Event → Type 0
IsErrorMessage (type_error e) = Unit
IsErrorMessage (type_queue objs) = ⊥
IsErrorMessage (type_apply i) = ⊥
IsErrorMessage (type_prune i) = ⊥
IsErrorMessage (type_inventory i) = ⊥
IsErrorMessage (type_status_update i) = ⊥

abbrev pub IsNamed : Unstructured → Type 0
IsNamed obj = obj.name ≢ []

errors-unwatched :
    (msgs : List Event) (watched : List ObjectMetadata)
    → contains metadata_discrete empty_metadata watched ≡ false
    → All IsErrorMessage msgs
    → All (λ msg. contains metadata_discrete (updated_metadata msg) watched ≡ false) msgs
errors-unwatched [] watched c h = tt
errors-unwatched (type_error e ∷ msgs) watched c h = (c, errors-unwatched msgs watched c h.1)
errors-unwatched (type_queue objs ∷ msgs) watched c h = absurd h.0
errors-unwatched (type_apply i ∷ msgs) watched c h = absurd h.0
errors-unwatched (type_prune i ∷ msgs) watched c h = absurd h.0
errors-unwatched (type_inventory i ∷ msgs) watched c h = absurd h.0
errors-unwatched (type_status_update i ∷ msgs) watched c h = absurd h.0

module _ {R : Type 0} (start : List Unstructured → R → List Event × R) (reset : R → R)
    (errors : (objs : List Unstructured) (r : R) → All IsErrorMessage (start objs r).0) where
  poller_objects-IsNamed :
      (s : RunnerState R) (objs : List Unstructured)
      → All IsNamed objs
      → All IsNamed (poller_objects s objs)
  unfolding poller_objects
  poller_objects-IsNamed s [] h = tt
  poller_objects-IsNamed s (obj ∷ objs) h =
      elim (Bool-cases (skip_wait_current_status obj s.manager)) [
        | inl e ↦ rw (e, poller_objects) (poller_objects-IsNamed s objs h.1)
        | inr e ↦ rw (e, poller_objects) (h.0, poller_objects-IsNamed s objs h.1)
      ]

  wait_for-errors :
      (objs : List Unstructured) (s : RunnerState R)
      → All IsNamed objs
      → (wait_for start reset objs s).events ≡ s.events
  unfolding wait_for after_loop contains
  wait_for-errors [] s h = refl
  wait_for-errors (obj ∷ objs) s h =
      let watched = watched_metadata (obj ∷ objs) [] in
      let begun : RunnerState R = record s { remote = (start (obj ∷ objs) s.remote).1 } in
      ap (λ w. (after_loop reset w).events)
        (wait_loop-unwatched (start (obj ∷ objs) s.remote).0 (waited false watched begun) (
          errors-unwatched (start (obj ∷ objs) s.remote).0 watched
            (watched_metadata-contains (obj ∷ objs) [] h nothing) (errors (obj ∷ objs) s.remote)))
    where
      nothing : contains metadata_discrete empty_metadata [] ≡ false
      nothing = refl

  -- Where the poller reports nothing but errors on objects that have a name, the task sends no event
  -- at all: the errors are dropped, and the wait ends as if the objects were ready.
  pub run_wait-errors :
      (objs : List Unstructured) (s : RunnerState R)
      → All IsNamed objs
      → (run_wait start reset objs s).events ≡ s.events
  unfolding run_wait
  run_wait-errors objs s h =
      wait_for-errors (poller_objects s objs) s (poller_objects-IsNamed s objs h)
