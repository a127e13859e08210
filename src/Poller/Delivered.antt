-- ===== src/Poller/Delivered.antt =====
-- What the poller sends: the handlers of pkg/poller/informerMultiplexer.go behind the channels of
-- pkg/poller/multiplexer.go.
use jpl.Base.{
  ℕ, List, [], ◌∷◌, ◌++◌, Str, true, false, ◌≡◌, refl, sym, subst, All, Bool-cases, inl, inr,
}
use jpl.Base.Interleaving.{IsInterleaving, IsInterleaving-prefix}
use jpl.Remote.{Error, is_forbidden, is_context_error}
use jpl.Event.{Event, type_error, type_status_update}
use jpl.Resource.Object.{ObjectMetadata}
use jpl.Poller.Object.{Api}
use jpl.Poller.Check.{CustomStatusCheckers}
use jpl.Poller.Handler.{
  Notification, handle_all, handle_informer_error, watch_error_handler, watch_all,
}
use jpl.Poller.Handler.Reports.{IsReport, handle_all-IsReport, silent, error_last, update}
use jpl.Poller.Multiplexer.{Mux, Reach}
use jpl.Poller.Multiplexer.Counting.{received_from, Reach-Inv}

module _ (object_to_observe : List ObjectMetadata) where
  -- A first part of a report is a report.
  IsReport-prefix :
      {all : List Event} (first rest : List Event)
      → IsReport object_to_observe all
      → first ++ rest ≡ all
      → IsReport object_to_observe first
  IsReport-prefix [] rest r h = silent
  IsReport-prefix (x ∷ first) rest silent h = absurd (cc h)
  IsReport-prefix (x ∷ []) rest (error_last e) h =
      let same : x ≡ type_error e = cc h in
      subst (λ y. IsReport object_to_observe (y ∷ [])) (sym same) (error_last e)
  IsReport-prefix (x ∷ y ∷ first) rest (error_last e) h = absurd (cc h)
  IsReport-prefix (x ∷ first) rest (update i {es} o r) h =
      let same : x ≡ type_status_update i = cc h in
      let later : first ++ rest ≡ es = cc h in
      subst (λ y. IsReport object_to_observe (y ∷ first)) (sym same)
        (update i o (IsReport-prefix first rest r later))

  -- The errors that a watch reports: those that say that a request is forbidden.
  abbrev pub IsWatchError : Event → Type 0
  IsWatchError e = (error : Error) × (e ≡ type_error error) × (is_forbidden error ≡ true)

  watch_error_handler-All :
      (e : Error) (events : List Event)
      → All IsWatchError events
      → All IsWatchError ((watch_error_handler e).events ++ events)
  unfolding watch_error_handler handle_informer_error
  watch_error_handler-All e events h = elim (Bool-cases (is_forbidden e)) [
    | inr f ↦ rw f h
    | inl f ↦ elim (Bool-cases (is_context_error e)) [
      | inl c ↦ rw (f, c) h
      | inr c ↦ rw (f, c) ((e, refl, f), h)
    ]
  ]

  watch_all-All : (errors : List Error) → All IsWatchError (watch_all errors)
  unfolding watch_all
  watch_all-All [] = tt
  watch_all-All (e ∷ errors) = watch_error_handler-All e _ (watch_all-All errors)

  All-first : (first rest : List Event) → All IsWatchError (first ++ rest) → All IsWatchError first
  All-first [] rest h = tt
  All-first (e ∷ first) rest h = (h.0, All-first first rest h.1)

  -- What is received of an informer: a report of its handlers, into which errors of its watch come at
  -- any place.
  pub record IsReceived (received : List Event) : Type 0 where
    pub handled : List Event
    pub watched : List Event
    pub mixed : IsInterleaving handled watched received
    pub report : IsReport object_to_observe handled
    pub forbidden : All IsWatchError watched

  module _ (api : Api) (checkers : CustomStatusCheckers) (check_error : Str → Error)
      (notifications : ℕ → List Notification) (watch_errors : ℕ → List Error) where
    -- The channel of each informer holds what its handlers send and what the handler of the errors of
    -- its watch sends, in some order. At every moment, however the goroutines interleave, what the
    -- multiplexed channel has given of an informer is then a report, status updates of observed objects
    -- and after an error nothing more, with errors of the watch at any place, each of which says that
    -- a request is forbidden.
    pub received-IsReceived :
        (contents : ℕ → List Event) (n : ℕ) (s : Mux Event) (i : ℕ)
        → ((j : ℕ)
            → IsInterleaving
                (handle_all api checkers check_error object_to_observe false (notifications j))
                (watch_all (watch_errors j))
                (contents j))
        → Reach contents n s
        → IsReceived (received_from i s.shared.received)
    received-IsReceived contents n s i sent r =
        let (l, l', w, w', mixed, of_handlers, of_watch) =
          IsInterleaving-prefix (received_from i s.shared.received) _ (sent i)
            ((Reach-Inv contents r).in_order i) in
        record {
          handled = l;
          watched = w;
          mixed = mixed;
          report =
              IsReport-prefix l l'
                (handle_all-IsReport object_to_observe api checkers check_error (notifications i))
                of_handlers;
          forbidden =
              All-first w w'
                (subst (All IsWatchError) (sym of_watch) (watch_all-All (watch_errors i)));
        }
