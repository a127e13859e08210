-- ===== src/Runner/Wait/Keeps.antt =====
-- What events and requests keep, WaitTask.Run keeps.
use jpl.Base.{List, [], ◌∷◌, Bool, true, false, ◌||◌, if◌then◌else◌}
use jpl.Base.Sets.{delete}
use jpl.Event.{Event}
use jpl.Resource.Object.{Unstructured, ObjectMetadata, metadata_discrete, metadata_is_crd}
use jpl.Runner.State.{RunnerState, send_event}
use jpl.Runner.Wait.{
  Waited, waited, receive, says_ready, updated_metadata, unless_all_ready, take_message, wait_loop,
  after_loop, wait_for, poller_objects, run_wait,
}

module _ {R : Type 0} (P : RunnerState R → Type 0)
    (on_event : (e : Event) (s : RunnerState R) → P s → P (send_event e s))
    (on_remote : (r : R) (s : RunnerState R) → P s → P (record s { remote = r })) where
  receive-keeps : (msg : Event) (w : Waited R) → P w.state → P (receive msg w).state
  unfolding receive
  receive-keeps msg w h = go (says_ready msg)
    where
      go :
          (ready : Bool)
          → P
              (if ready
                then waited
                    (w.reset_mapper || metadata_is_crd (updated_metadata msg))
                    (delete metadata_discrete (updated_metadata msg) w.watched)
                    (send_event msg w.state)
                else waited w.reset_mapper w.watched (send_event msg w.state)).state
      go true = on_event msg w.state h
      go false = on_event msg w.state h

  unless_all_ready-keeps :
      (next : Waited R → Waited R) (left : List ObjectMetadata) (w : Waited R)
      → ((w' : Waited R) → P w'.state → P (next w').state)
      → P w.state
      → P (unless_all_ready next left w).state
  unfolding unless_all_ready
  unless_all_ready-keeps next [] w hn h = h
  unless_all_ready-keeps next (m ∷ ms) w hn h = hn w h

  take_message-keeps :
      (next : Waited R → Waited R) (msg : Event) (of_interest : Bool) (w : Waited R)
      → ((w' : Waited R) → P w'.state → P (next w').state)
      → P w.state
      → P (take_message next msg of_interest w).state
  unfolding take_message
  take_message-keeps next msg false w hn h = hn w h
  take_message-keeps next msg true w hn h =
      unless_all_ready-keeps next (receive msg w).watched (receive msg w) hn (receive-keeps msg w h)

  pub wait_loop-keeps : (msgs : List Event) (w : Waited R) → P w.state → P (wait_loop msgs w).state
  unfolding wait_loop
  wait_loop-keeps [] w h = h
  wait_loop-keeps (msg ∷ msgs) w h =
      take_message-keeps (wait_loop msgs) msg _ w (wait_loop-keeps msgs) h

  after_loop-keeps : (reset : R → R) (w : Waited R) → P w.state → P (after_loop reset w)
  unfolding after_loop
  after_loop-keeps reset w h = go w.reset_mapper
    where
      go : (b : Bool) → P (if b then record w.state { remote = reset w.state.remote } else w.state)
      go true = on_remote (reset w.state.remote) w.state h
      go false = h

  wait_for-keeps :
      (start : List Unstructured → R → List Event × R) (reset : R → R) (objs : List Unstructured)
      (s : RunnerState R)
      → P s
      → P (wait_for start reset objs s)
  unfolding wait_for
  wait_for-keeps start reset [] s h = h
  wait_for-keeps start reset (obj ∷ objs) s h = after_loop-keeps reset _ (
      wait_loop-keeps (start (obj ∷ objs) s.remote).0 _
        (on_remote (start (obj ∷ objs) s.remote).1 s h))

  pub run_wait-keeps :
      (start : List Unstructured → R → List Event × R) (reset : R → R) (objs : List Unstructured)
      (s : RunnerState R)
      → P s
      → P (run_wait start reset objs s)
  unfolding run_wait
  run_wait-keeps start reset objs s h = wait_for-keeps start reset (poller_objects s objs) s h
