-- ===== src/Poller/Start/Covers.antt =====
-- What the start of a poller leaves behind: the informers, and the channels with the errors.
use mathlib.Core.List.{Mem, Perm, mem-cons_self}
use mathlib.Core.Bool.{true≢false}
use jpl.Base.{
  List, [], ◌∷◌, Option, none, some, Bool, true, false, ◌||◌, ◌≡◌, refl, sym, ap, subst, ◌∙◌, arith,
  inl, inr, Bool-cases, ◌⊎◌, map,
}
use jpl.Base.Sets.{contains, contains-append, contains-insert, contains_of_mem, contains_of_perm}
use jpl.Remote.{Error, is_context_error}
use jpl.Poller.Handler.{handle_informer_error}
use jpl.Resource.Object.{Unstructured, object_discrete}
use jpl.Poller.Start.{
  InformerResource, informer_resource_discrete, informer_resource_of, resources_from,
  resources_and_ids_from_objects, InformerApi, InformerMultiplexer, add_channel, run_informer, Turn,
  report_error, after_run, unless_found, start_informer, start_informers, run_multiplexer,
  run_again, start_poller,
}

abbrev has : InformerResource → List InformerResource → Bool
has = contains informer_resource_discrete

-- A state that comes after another one.
record IsLater (im im' : InformerMultiplexer) : Type 0 where
  more : (r : InformerResource) → has r im.informers ≡ true → has r im'.informers ≡ true
  still : im.done ≡ true → im'.done ≡ true

report_error-IsLater :
    (e : Error) (im : InformerMultiplexer) (o : Option Error) → IsLater im (report_error e im o)
unfolding report_error
report_error-IsLater e im (some refusal) = record { more = λ r h. h; still = λ h. h }
report_error-IsLater e im none = record { more = λ r h. h; still = λ h. ground (arith) }

after_run-IsLater :
    (turn : Turn) (im : InformerMultiplexer) (o : Option Error) → IsLater im (after_run turn im o)
unfolding after_run
after_run-IsLater turn im (some e) =
    let l =
      report_error-IsLater e (record im { done = im.done || turn.ends_then })
        (add_channel (im.done || turn.ends_then)) in
    record { more = l.more; still = λ h. l.still (ground arith) }
after_run-IsLater turn im none = record {
  more = λ r h.
      ground
        (arith, contains-append informer_resource_discrete r im.informers (turn.resource ∷ []));
  still = λ h. h;
}

contains_self : (r : InformerResource) → has r (r ∷ []) ≡ true
contains_self r = contains_of_mem informer_resource_discrete r (r ∷ []) mem-cons_self

module _ (api : InformerApi) where
  -- A resource that has an informer, or whose informer could not be made or be used, with an error that
  -- says that a context has ended; or the context of the multiplexer has ended.
  pub data IsCovered (im : InformerMultiplexer) (r : InformerResource) : Type 0 where
    informed : contains informer_resource_discrete r im.informers ≡ true → IsCovered im r
    ended : im.done ≡ true → IsCovered im r
    dropped :
        (e : Error) → run_informer api false r ≡ some e → is_context_error e ≡ true → IsCovered im r

  IsLater-covered :
      {im im' : InformerMultiplexer} (r : InformerResource)
      → IsLater im im'
      → IsCovered im r
      → IsCovered im' r
  IsLater-covered r l (informed h) = informed (l.more r h)
  IsLater-covered r l (ended h) = ended (l.still h)
  IsLater-covered r l (dropped e h c) = dropped e h c

  unless_found-IsLater :
      (turn : Turn) (im : InformerMultiplexer) (found : Bool)
      → IsLater im (unless_found api turn im found)
  unfolding unless_found
  unless_found-IsLater turn im true = record { more = λ r h. h; still = λ h. h }
  unless_found-IsLater turn im false =
      let l =
        after_run-IsLater turn (record im { done = im.done || turn.ends_first })
          (run_informer api (im.done || turn.ends_first) turn.resource) in
      record { more = l.more; still = λ h. l.still (ground arith) }

  -- Where an informer does not run, the error is reported, or its reason is the end of a context.
  report_error-covers :
      (r : InformerResource) (e : Error) (im : InformerMultiplexer) (before after : Bool)
      → run_informer api before r ≡ some e
      → (before ≡ true → im.done ≡ true)
      → im.done ≡ after
      → IsCovered (report_error e im (add_channel after)) r
  unfolding report_error handle_informer_error
  report_error-covers r e im before true h b a = ended a
  report_error-covers r e im true false h b a = absurd (true≢false (sym (b refl) ∙ a))
  report_error-covers r e im false false h b a = elim (Bool-cases (is_context_error e)) [
    | inl c ↦ dropped e h c
    | inr c ↦ ended (rw (c, a) refl)
  ]

  after_run-covers :
      (turn : Turn) (im : InformerMultiplexer) (o : Option Error)
      → run_informer api im.done turn.resource ≡ o
      → IsCovered (after_run turn im o) turn.resource
  unfolding after_run
  after_run-covers turn im none h = informed (
      ground (
        arith,
        contains-append informer_resource_discrete turn.resource im.informers (turn.resource ∷ []),
        contains_self turn.resource,
      ))
  after_run-covers turn im (some e) h =
      report_error-covers turn.resource e (record im { done = im.done || turn.ends_then }) im.done _
        h (λ d. ground (arith)) refl

  unless_found-covers :
      (turn : Turn) (im : InformerMultiplexer) (found : Bool)
      → has turn.resource im.informers ≡ found
      → IsCovered (unless_found api turn im found) turn.resource
  unfolding unless_found
  unless_found-covers turn im true h = informed h
  unless_found-covers turn im false h = after_run-covers turn _ _ refl

  start_informers-covers :
      (turns : List Turn) (im : InformerMultiplexer) (r : InformerResource)
      → (IsCovered im r ⊎ (has r (map (λ (t : Turn). t.resource) turns) ≡ true))
      → IsCovered (start_informers api turns im) r
  unfolding start_informers start_informer contains
  start_informers-covers [] im r (inl c) = c
  start_informers-covers [] im r (inr h) = absurd (ground arith)
  start_informers-covers (turn ∷ turns) im r (inl c) =
      start_informers-covers turns _ r (inl (IsLater-covered r (unless_found-IsLater turn im _) c))
  start_informers-covers (turn ∷ turns) im r (inr h) =
      elim (informer_resource_discrete r turn.resource) [
        | yes e ↦
            start_informers-covers turns _ r
              (inl (subst (IsCovered _) (sym e) (unless_found-covers turn im _ refl)))
        | no d ↦ start_informers-covers turns _ r (inr (ground arith))
      ]

  resources_from-has :
      (objs : List Unstructured) (results : List InformerResource) (r : InformerResource)
      → has r results ≡ true
      → has r (resources_from objs results) ≡ true
  unfolding resources_from
  resources_from-has [] results r h = h
  resources_from-has (obj ∷ objs) results r h = resources_from-has objs _ r (
      ground
        (arith, contains-insert informer_resource_discrete (informer_resource_of obj) r results))

  resources_from_complete :
      (objs : List Unstructured) (results : List InformerResource) (obj : Unstructured)
      → contains object_discrete obj objs ≡ true
      → has (informer_resource_of obj) (resources_from objs results) ≡ true
  unfolding resources_from contains
  resources_from_complete [] results obj m = absurd (ground arith)
  resources_from_complete (o ∷ objs) results obj m = elim (object_discrete obj o) [
    | yes e ↦ resources_from-has objs _ (informer_resource_of obj) (
        ground (
          arith,
          contains-insert informer_resource_discrete (informer_resource_of o)
              (informer_resource_of obj) results,
          contains_self (informer_resource_of obj),
          ap informer_resource_of e,
        ))
    | no d ↦ resources_from_complete objs _ obj (ground arith)
  ]

  -- Whatever order the goroutines take, and whenever the context ends: after the turns of all the
  -- resources that Start finds, each object has an informer for its group, kind and namespace, or the
  -- context of the multiplexer has ended, or an error that says that a context has ended was dropped.
  pub start_poller-covers :
      (unsorted : List InformerResource → List InformerResource) (over : Bool)
      (objs : List Unstructured) (turns : List Turn) (obj : Unstructured)
      → ((s : List InformerResource) → Perm (unsorted s) s)
      → Perm (map (λ (t : Turn). t.resource) turns) (start_poller unsorted over objs).1.resources
      → Mem obj objs
      → IsCovered
          (start_informers api turns (start_poller unsorted over objs).1)
          (informer_resource_of obj)
  unfolding start_poller run_multiplexer run_again resources_and_ids_from_objects
  start_poller-covers unsorted over objs turns obj sorts all m =
      start_informers-covers turns _ (informer_resource_of obj) (
        inr (
          contains_of_perm informer_resource_discrete (informer_resource_of obj) all
          ∙ contains_of_perm informer_resource_discrete (informer_resource_of obj)
              (sorts (resources_from objs []))
          ∙ resources_from_complete objs [] obj (contains_of_mem object_discrete obj objs m)))
