-- ===== src/Poller/Start/Consistent.antt =====
-- Which channels the multiplexer of a poller opens.
use mathlib.Core.List.{Nodup, Nodup-nil}
use jpl.Base.{
  List, [], ◌∷◌, ◌++◌, Option, none, some, Bool, true, false, ◌||◌, ◌≡◌, refl, ap, subst, ◌∙◌, sym,
  arith, ◌≤◌, length, append_assoc, append-nil,
}
use jpl.Base.Sets.{contains, append-Nodup_last}
use jpl.Remote.{Error}
use jpl.Event.{Event, type_error}
use jpl.Poller.Handler.{handle_informer_error}
use jpl.Poller.Start.{
  InformerResource, informer_resource_discrete, InformerApi, Channel, of_informer, of_error,
  InformerMultiplexer, add_channel, Turn, report_error, after_run, unless_found, start_informer,
  start_informers, Returned, multiplexed_channel, error_channel, run_multiplexer, run_again,
}

-- The informers that have a channel.
abbrev pub channel_informers : List Channel → List InformerResource
channel_informers [] = []
channel_informers (of_informer r ∷ cs) = r ∷ channel_informers cs
channel_informers (of_error es ∷ cs) = channel_informers cs

-- The errors that are sent to channels of their own.
abbrev pub channel_errors : List Channel → List Event
channel_errors [] = []
channel_errors (of_informer r ∷ cs) = channel_errors cs
channel_errors (of_error es ∷ cs) = es ++ channel_errors cs

-- No resource has two informers, the channels of informers are those of the informers in the map, and
-- at most one error is reported, after which the context has ended.
pub record IsConsistent (im : InformerMultiplexer) : Type 0 where
  pub once : Nodup im.informers
  pub opened : channel_informers im.channels ≡ im.informers
  pub fine : im.done ≡ false → channel_errors im.channels ≡ []
  pub at_most_one : length (channel_errors im.channels) ≤ 1

channel_informers-append :
    (cs ds : List Channel)
    → channel_informers (cs ++ ds) ≡ channel_informers cs ++ channel_informers ds
channel_informers-append [] ds = refl
channel_informers-append (of_informer r ∷ cs) ds = ap (λ l. r ∷ l) (channel_informers-append cs ds)
channel_informers-append (of_error es ∷ cs) ds = channel_informers-append cs ds

channel_errors-append :
    (cs ds : List Channel) → channel_errors (cs ++ ds) ≡ channel_errors cs ++ channel_errors ds
channel_errors-append [] ds = refl
channel_errors-append (of_informer r ∷ cs) ds = channel_errors-append cs ds
channel_errors-append (of_error es ∷ cs) ds =
    ap (λ l. es ++ l) (channel_errors-append cs ds) ∙ sym (append_assoc es _ _)

-- The end of the context changes nothing else.
IsConsistent-end :
    (im : InformerMultiplexer) (ends : Bool)
    → IsConsistent im
    → IsConsistent (record im { done = im.done || ends })
IsConsistent-end im ends c = record {
  once = c.once;
  opened = c.opened;
  fine = λ h. c.fine (ground arith);
  at_most_one = c.at_most_one;
}

error-IsConsistent :
    (im : InformerMultiplexer) (es : List Event) (stops : Bool)
    → IsConsistent im
    → im.done ≡ false
    → length es ≤ 1
    → (stops ≡ false → es ≡ [])
    → IsConsistent
        (record im { channels = im.channels ++ of_error es ∷ []; done = im.done || stops })
error-IsConsistent im es stops c going few quiet =
    let only : channel_errors (im.channels ++ of_error es ∷ []) ≡ es =
      channel_errors-append im.channels (of_error es ∷ [])
      ∙ ap (λ l. l ++ (es ++ [])) (c.fine going)
      ∙ append-nil es in
    record {
      once = c.once;
      opened = channel_informers-append im.channels (of_error es ∷ []) ∙ append-nil _ ∙ c.opened;
      fine = λ h. only ∙ quiet (ground arith);
      at_most_one = subst (λ l. length l ≤ 1) (sym only) few;
    }

report_error-IsConsistent :
    (e : Error) (im : InformerMultiplexer) (done : Bool)
    → IsConsistent im
    → im.done ≡ done
    → IsConsistent (report_error e im (add_channel done))
unfolding report_error handle_informer_error
report_error-IsConsistent e im true c d = c
report_error-IsConsistent e im false c d =
    error-IsConsistent im _ _ c d (ground arith) (ground arith)

after_run-IsConsistent :
    (turn : Turn) (im : InformerMultiplexer) (o : Option Error)
    → IsConsistent im
    → contains informer_resource_discrete turn.resource im.informers ≡ false
    → IsConsistent (after_run turn im o)
unfolding after_run
after_run-IsConsistent turn im (some e) c f =
    report_error-IsConsistent e (record im { done = im.done || turn.ends_then }) _
      (IsConsistent-end im turn.ends_then c) refl
after_run-IsConsistent turn im none c f = record {
  once = append-Nodup_last informer_resource_discrete turn.resource im.informers c.once f;
  opened =
      channel_informers-append im.channels (of_informer turn.resource ∷ [])
      ∙ ap (λ l. l ++ turn.resource ∷ []) c.opened;
  fine = λ h.
      channel_errors-append im.channels (of_informer turn.resource ∷ []) ∙ append-nil _ ∙ c.fine h;
  at_most_one =
      subst (λ l. length l ≤ 1)
        (sym (channel_errors-append im.channels (of_informer turn.resource ∷ []) ∙ append-nil _))
        c.at_most_one;
}

unless_found-IsConsistent :
    (api : InformerApi) (turn : Turn) (im : InformerMultiplexer) (found : Bool)
    → IsConsistent im
    → contains informer_resource_discrete turn.resource im.informers ≡ found
    → IsConsistent (unless_found api turn im found)
unfolding unless_found
unless_found-IsConsistent api turn im true c f = c
unless_found-IsConsistent api turn im false c f =
    after_run-IsConsistent turn (record im { done = im.done || turn.ends_first }) _
      (IsConsistent-end im turn.ends_first c) f

-- The turn of a goroutine keeps a multiplexer consistent.
start_informers-IsConsistent :
    (api : InformerApi) (turns : List Turn) (im : InformerMultiplexer)
    → IsConsistent im
    → IsConsistent (start_informers api turns im)
unfolding start_informers start_informer
start_informers-IsConsistent api [] im c = c
start_informers-IsConsistent api (turn ∷ turns) im c =
    start_informers-IsConsistent api turns _ (unless_found-IsConsistent api turn im _ c refl)

-- What Run returns, and the multiplexer after the turns of the goroutines that it starts.
pub data IsMultiplexerRun (api : InformerApi) (im : InformerMultiplexer) (turns : List Turn)
    : Returned × InformerMultiplexer → Type 0 where
  again :
      (e : Error)
      → im.running ≡ true
      → IsMultiplexerRun api im turns (error_channel (type_error e), im)
  first_run :
      (im' : InformerMultiplexer)
      → im.running ≡ false
      → im'.running ≡ true
      → IsConsistent (start_informers api turns im')
      → IsMultiplexerRun api im turns (multiplexed_channel, im')

run_again-IsMultiplexerRun :
    (api : InformerApi) (over : Bool) (im : InformerMultiplexer) (turns : List Turn)
    (running : Bool)
    → im.running ≡ running
    → IsMultiplexerRun api im turns (run_again running over im)
unfolding run_again
run_again-IsMultiplexerRun api over im turns true r = again _ r
run_again-IsMultiplexerRun api over im turns false r = first_run _ r refl (
    start_informers-IsConsistent api turns _
      (record { once = Nodup-nil; opened = refl; fine = λ h. refl; at_most_one = omega arith }))

-- Run of a multiplexer that runs already changes nothing and returns the channel of an error. Else it
-- runs, and after any turns of its goroutines no resource has two informers, the channels of informers
-- are those of the informers in the map, and at most one error was reported, after which the context
-- has ended.
pub run_multiplexer-IsMultiplexerRun :
    (api : InformerApi) (over : Bool) (im : InformerMultiplexer) (turns : List Turn)
    → IsMultiplexerRun api im turns (run_multiplexer over im)
unfolding run_multiplexer
run_multiplexer-IsMultiplexerRun api over im turns =
    run_again-IsMultiplexerRun api over im turns im.running refl
