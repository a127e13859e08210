-- ===== src/Runner/Apply/Reached.antt =====
-- Which of its objects ApplyTask.Run reaches.
use mathlib.Core.List.{Mem, mem-cons_self, mem-cons_of_mem, mem-cons, not-mem-nil, cons≢nil}
use mathlib.Core.Logic.Or
use mathlib.Core.Bool.{Bool-set}
use jpl.Base.{
  List, [], ◌∷◌, ◌++◌, Option, none, some, Bool, true, false, ◌≡◌, ◌≢◌, refl, sym, ◌∙◌, ap, subst,
  arith,
}
use jpl.Base.Maps.{get}
use jpl.Remote.{Error, Outcome, ok, err, is_unsupported_media_type}
use jpl.Event.{Status}
use jpl.Inventory.Manager.{ObjectStatus}
use jpl.Resource.Object.{Unstructured, object_discrete}
use jpl.Runner.State.{RunnerState, send_event}
use jpl.Runner.State.Faithful.{register-get}
use jpl.Runner.Apply.{
  ApplySetup, apply_event, run_filters, report, apply_fetched, apply_unfiltered, unless_filtered,
  run_object, unless_bail_out, run_apply,
}
use jpl.Runner.Apply.Keeps.{run_object-keeps, run_apply-keeps}
use jpl.Runner.Apply.Outcomes.{is_decided, IsDecided, apply_event-IsDecided, run_object-decides}

none_before : {A : Type 0} (before after : List A) (x : A) → before ++ (x ∷ after) ≡ [] → ⊥
none_before [] after x h = cons≢nil h
none_before (b ∷ before) after x h = cons≢nil h

alone : {A : Type 0} (before after : List A) (x y : A) → before ++ (x ∷ after) ≡ y ∷ [] → after ≡ []
alone [] after x y h = cc h
alone (b ∷ before) after x y h = absurd (none_before before after x (cc h))

apply_event-untouched :
    {R : Type 0} (x : Unstructured) (known : Option ObjectStatus) (status : Status)
    (obj : Unstructured) (error : Option Error) (s : RunnerState R)
    → x ≢ obj
    → get object_discrete x s.manager.object_statuses ≡ known
    → get object_discrete x (send_event (apply_event status obj error) s).manager.object_statuses
      ≡ known
unfolding send_event apply_event
apply_event-untouched x known status obj error s d h =
    ground (arith, register-get (apply_event status obj error) x s.manager)

module _ {R Info : Type 0} (setup : ApplySetup R Info) where
  -- After the filters: they keep the object, its info is fetched, and the server answers to its apply
  -- that it does not support the request.
  pub record IsRefusedAfter (obj : Unstructured) (p : Bool × RunnerState R) : Type 0 where
    kept : p.0 ≡ false
    info : Info
    fetched : (setup.info_fetcher obj p.1.remote).0 ≡ ok info
    error : Error
    refused : (setup.apply info (setup.info_fetcher obj p.1.remote).1).0 ≡ some error
    unsupported : is_unsupported_media_type error ≡ true

  abbrev pub IsRefused : Unstructured → RunnerState R → Type 0
  IsRefused obj s = IsRefusedAfter obj (run_filters setup setup.filters obj s)

  report-unsupported :
      (obj : Unstructured) (answer : Option Error) (s : RunnerState R)
      → (report setup obj answer s).0 ≡ true
      → (e : Error) × (answer ≡ some e) × (is_unsupported_media_type e ≡ true)
  unfolding report
  report-unsupported obj none s h = absurd (cc h)
  report-unsupported obj (some e) s h = (e, refl, h)

  apply_fetched-IsRefused :
      (obj : Unstructured) (fetched : Outcome Info) (p s : RunnerState R)
      → (setup.info_fetcher obj p.remote).0 ≡ fetched
      → s.remote ≡ (setup.info_fetcher obj p.remote).1
      → (apply_fetched setup obj fetched s).0 ≡ true
      → IsRefusedAfter obj (false, p)
  unfolding apply_fetched
  apply_fetched-IsRefused obj (err e) p s f at_remote h = absurd (cc h)
  apply_fetched-IsRefused obj (ok info) p s f at_remote h =
      let (e, refused, unsupported) = report-unsupported obj (setup.apply info s.remote).0 _ h in
      record {
        kept = refl;
        info = info;
        fetched = f;
        error = e;
        refused = ap (λ r. (setup.apply info r).0) (sym at_remote) ∙ refused;
        unsupported = unsupported;
      }

  unless_filtered-IsRefused :
      (obj : Unstructured) (p : Bool × RunnerState R)
      → (unless_filtered setup obj p).0 ≡ true
      → IsRefusedAfter obj p
  unfolding unless_filtered apply_unfiltered send_event
  unless_filtered-IsRefused obj (true, s) h = absurd (cc h)
  unless_filtered-IsRefused obj (false, s) h = apply_fetched-IsRefused obj _ s _ refl refl h

  unless_filtered-refused :
      (obj : Unstructured) (p : Bool × RunnerState R)
      → IsRefusedAfter obj p
      → (unless_filtered setup obj p).0 ≡ true
  unfolding unless_filtered apply_unfiltered send_event apply_fetched report
  unless_filtered-refused obj (true, s) h = absurd (cc h.kept)
  unless_filtered-refused obj (false, s) h = rw h.fetched (rw h.refused h.unsupported)

  run_object-IsRefused :
      (obj : Unstructured) (s : RunnerState R) → (run_object setup obj s).0 ≡ true → IsRefused obj s
  unfolding run_object
  run_object-IsRefused obj s h = unless_filtered-IsRefused obj _ h

  run_object-refused :
      (obj : Unstructured) (s : RunnerState R) → IsRefused obj s → (run_object setup obj s).0 ≡ true
  unfolding run_object
  run_object-refused obj s h = unless_filtered-refused obj _ h

  -- The turns of the objects, one after the other.
  abbrev pub after_turns : List Unstructured → RunnerState R → RunnerState R
  after_turns [] s = s
  after_turns (obj ∷ objs) s = after_turns objs (run_object setup obj s).1

  -- The objects that the task reaches: each of them has its turn and an outcome, the others keep the
  -- status that they had, and the task stops at the first object that the server refuses.
  pub record IsReach (objs : List Unstructured) (s s' : RunnerState R) : Type 0 where
    reached : List Unstructured
    left : List Unstructured
    in_order : reached ++ left ≡ objs
    turns : after_turns reached s ≡ s'
    decided :
        (x : Unstructured)
        → Mem x reached
        → is_decided (get object_discrete x s'.manager.object_statuses) ≡ true
    untouched :
        (x : Unstructured)
        → ¬ Mem x reached
        → get object_discrete x s'.manager.object_statuses
          ≡ get object_discrete x s.manager.object_statuses
    stops :
        (before after : List Unstructured) (obj : Unstructured)
        → before ++ (obj ∷ after) ≡ reached
        → IsRefused obj (after_turns before s)
        → after ≡ []
    stopped :
        left ≢ []
        → (before : List Unstructured) × (obj : Unstructured) × (before ++ (obj ∷ []) ≡ reached)
          × IsRefused obj (after_turns before s)

  -- The turn of another object does not change the status of an object.
  run_object-untouched :
      (obj x : Unstructured) (s : RunnerState R)
      → x ≢ obj
      → get object_discrete x (run_object setup obj s).1.manager.object_statuses
        ≡ get object_discrete x s.manager.object_statuses
  run_object-untouched obj x s d =
      run_object-keeps setup
        (λ t.
          get object_discrete x t.manager.object_statuses
          ≡ get object_discrete x s.manager.object_statuses)
        (λ o. x ≢ o) (apply_event-untouched x (get object_discrete x s.manager.object_statuses))
        (λ r t h. h) obj s d refl

  later_stops :
      (obj : Unstructured) (t : RunnerState R) (reached before after : List Unstructured)
      (o : Unstructured) (s : RunnerState R)
      → run_object setup obj s ≡ (false, t)
      → ((before after : List Unstructured) (o : Unstructured)
          → before ++ (o ∷ after) ≡ reached
          → IsRefused o (after_turns before t)
          → after ≡ [])
      → before ++ (o ∷ after) ≡ obj ∷ reached
      → IsRefused o (after_turns before s)
      → after ≡ []
  later_stops obj t reached [] after o s run rest parts refused =
      let same : o ≡ obj = cc parts in
      let bails_out : (run_object setup obj s).0 ≡ true =
        run_object-refused obj s (subst (λ x. IsRefused x s) same refused) in
      absurd (cc (sym (ap (λ x. x.0) run) ∙ bails_out))
  later_stops obj t reached (b ∷ before) after o s run rest parts refused =
      let same : (run_object setup b s).1 ≡ t =
        ap (λ x. (run_object setup x s).1) (cc parts) ∙ ap (λ x. x.1) run in
      rest before after o (cc parts) (subst (λ u. IsRefused o (after_turns before u)) same refused)

  turn-IsReach :
      (obj : Unstructured) (objs : List Unstructured) (s : RunnerState R) (p : Bool × RunnerState R)
      → run_object setup obj s ≡ p
      → (p.0 ≡ false → IsReach objs p.1 (run_apply setup objs p.1))
      → IsReach (obj ∷ objs) s (unless_bail_out setup (run_apply setup objs) p)
  unfolding unless_bail_out
  turn-IsReach obj objs s (true, t) run rest = record {
    reached = obj ∷ [];
    left = objs;
    in_order = refl;
    turns = ap (λ x. x.1) run;
    decided = λ x m.
        Or.elim (Bool-set _ _) (mem-cons.0 m)
          (λ e.
            subst (λ (q : Bool × RunnerState R). IsDecided setup x q.1) run
              (rw e (run_object-decides setup obj s)))
          (λ n. absurd (not-mem-nil n));
    untouched = λ x absent.
        ap (λ (q : Bool × RunnerState R). get object_discrete x q.1.manager.object_statuses)
          (sym run)
        ∙ run_object-untouched obj x s (λ e. absent (rw e mem-cons_self));
    stops = λ before after o parts refused. alone before after o obj parts;
    stopped = λ more. ([], obj, refl, run_object-IsRefused obj s (ap (λ x. x.0) run));
  }
  turn-IsReach obj objs s (false, t) run rest =
      let next = rest refl in
      let went_on : (run_object setup obj s).1 ≡ t = ap (λ x. x.1) run in
      record {
        reached = obj ∷ next.reached;
        left = next.left;
        in_order = ap (λ l. obj ∷ l) next.in_order;
        turns = ap (after_turns next.reached) went_on ∙ next.turns;
        decided = λ x m.
            Or.elim (Bool-set _ _) (mem-cons.0 m)
              (λ e.
                run_apply-keeps setup (IsDecided setup x) (apply_event-IsDecided setup x)
                  (λ r s' h. h) objs t
                  (subst (λ (q : Bool × RunnerState R). IsDecided setup x q.1) run
                    (rw e (run_object-decides setup obj s))))
              (next.decided x);
        untouched = λ x absent.
            next.untouched x (λ m. absent (mem-cons_of_mem obj m))
            ∙ ap (λ (u : RunnerState R). get object_discrete x u.manager.object_statuses)
                (sym went_on)
            ∙ run_object-untouched obj x s (λ e. absent (rw e mem-cons_self));
        stops = λ before after o parts refused.
            later_stops obj t next.reached before after o s run next.stops parts refused;
        stopped = λ more.
            let (before, o, parts, refused) = next.stopped more in
            (
              obj ∷ before,
              o,
              ap (λ l. obj ∷ l) parts,
              subst (λ u. IsRefused o (after_turns before u)) (sym went_on) refused,
            );
      }

  -- Whatever the server answers, the task reaches the objects up to and with the first one of which the
  -- apply is answered with an unsupported media type, after the filters have kept it and its info was
  -- fetched; where there is none, it reaches all of them. Each reached object has its turn, in order,
  -- and the manager holds that its apply succeeded, failed or was skipped; an object that is not reached
  -- keeps the status that it had before.
  pub run_apply-IsReach :
      (objs : List Unstructured) (s : RunnerState R) → IsReach objs s (run_apply setup objs s)
  unfolding run_apply
  run_apply-IsReach [] s = record {
    reached = [];
    left = [];
    in_order = refl;
    turns = refl;
    decided = λ x m. absurd (not-mem-nil m);
    untouched = λ x absent. refl;
    stops = λ before after o parts refused. absurd (none_before before after o parts);
    stopped = λ more. absurd (more refl);
  }
  run_apply-IsReach (obj ∷ objs) s =
      turn-IsReach obj objs s (run_object setup obj s) refl
        (λ e. run_apply-IsReach objs (run_object setup obj s).1)
