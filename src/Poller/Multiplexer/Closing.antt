-- ===== src/Poller/Multiplexer/Closing.antt =====
-- When the multiplexed channel is closed, and what has been received by then.
use jpl.Base.{ℕ, ◌<◌, List, [], ◌++◌, Bool, true, false, ◌≡◌, refl, sym, ◌∙◌, ap, arith, append-nil}
use jpl.Base.Family.{update, total-member}
use jpl.Poller.Multiplexer.{
  Monitor, watching, noticed, leaving, finished, is_closed, Pc, unused, refused, admitted, reading,
  holding, drained, left_channel, Shared, Mux, Move, refuse, check, add, take, drain, send,
  send_closed, leave, Step, move, context_ends, stop_listening, notice, exit, close,
  new_multiplexer, Reach, at_start, later,
}
use jpl.Poller.Multiplexer.Counting.{forwards, received_from, to_come, Inv, Reach-Inv}

module _ {A : Type 0} where
  abbrev pub is_checked : Pc A → Bool
  is_checked admitted = true
  is_checked unused = false
  is_checked refused = false
  is_checked (reading q) = false
  is_checked (holding e q) = false
  is_checked drained = false
  is_checked left_channel = false

  -- AddChannel has accepted the channel.
  abbrev pub is_accepted : Pc A → Bool
  is_accepted unused = false
  is_accepted refused = false
  is_accepted admitted = true
  is_accepted (reading q) = true
  is_accepted (holding e q) = true
  is_accepted drained = true
  is_accepted left_channel = true

abbrev pub is_past_loop : Monitor → Bool
is_past_loop watching = false
is_past_loop noticed = false
is_past_loop leaving = true
is_past_loop finished = true

abbrev has_noticed : Monitor → Bool
has_noticed watching = false
has_noticed noticed = true
has_noticed leaving = true
has_noticed finished = true

module _ {A : Type 0} (contents : ℕ → List A) (n : ℕ) where
  -- No call of AddChannel stands between its test of the context and its count when the monitor
  -- leaves its loop.
  abbrev pub IsCalm : {s t : Mux A} → Step contents n s t → Type 0
  IsCalm {s} (exit w c) = (i : ℕ) → is_checked (s.pc i) ≡ false
  IsCalm (move i lt ok mv) = Unit
  IsCalm context_ends = Unit
  IsCalm stop_listening = Unit
  IsCalm (notice d w) = Unit
  IsCalm (close w) = Unit

  pub data CalmReach : Mux A → Type 0 where
    start_calm : CalmReach new_multiplexer
    later_calm : {s t : Mux A} → CalmReach s → (st : Step contents n s t) → IsCalm st → CalmReach t

  pub CalmReach-Reach : {s : Mux A} → CalmReach s → Reach contents n s
  CalmReach-Reach start_calm = at_start
  CalmReach-Reach (later_calm r st c) = later (CalmReach-Reach r) st

  pub record IsQuiet (s : Mux A) : Type 0 where
    pub sound : s.shared.panicked ≡ false
    pub ended : has_noticed s.shared.monitor ≡ true → s.shared.done ≡ true
    pub empty : is_past_loop s.shared.monitor ≡ true → s.shared.counter ≡ 0
    pub settled : is_past_loop s.shared.monitor ≡ true → (i : ℕ) → is_checked (s.pc i) ≡ false

  -- A goroutine that forwards keeps the monitor in its loop.
  pub forwarding :
      (i : ℕ) (s : Mux A)
      → i < n
      → IsQuiet s
      → Inv contents n s
      → forwards (s.pc i) ≡ 1
      → is_past_loop s.shared.monitor ≡ false
  forwarding i s lt quiet inv f =
      ground (arith, total-member forwards n s.pc i lt, inv.counts, quiet.empty)

  -- While the monitor is in its loop, little is asked.
  running :
      (s : Mux A) (m : Shared A) (pc : ℕ → Pc A)
      → IsQuiet s
      → is_past_loop s.shared.monitor ≡ false
      → (m.monitor ≡ s.shared.monitor) × (m.done ≡ s.shared.done) × (m.panicked ≡ false)
      → IsQuiet (record { shared = m; pc = pc })
  running s m pc quiet inside (monitor, done, sound) = record {
    sound = sound;
    ended = λ h. done ∙ quiet.ended (ap has_noticed (sym monitor) ∙ h);
    empty = λ h. absurd (clash h);
    settled = λ h. absurd (clash h);
  }
    where
      clash : is_past_loop m.monitor ≡ true → ⊥
      clash h = cc (ap is_past_loop monitor)

  refused-IsQuiet :
      (i : ℕ) (s : Mux A)
      → IsQuiet s
      → IsQuiet (record { shared = s.shared; pc = update s.pc i refused })
  refused-IsQuiet i s quiet = record {
    sound = quiet.sound;
    ended = quiet.ended;
    empty = quiet.empty;
    settled = λ h j. ground (arith, quiet.settled h j);
  }

  Move-IsQuiet :
      (i : ℕ) (s : Mux A) {m' : Shared A} {p p' : Pc A}
      → i < n
      → s.pc i ≡ p
      → IsQuiet s
      → Inv contents n s
      → Move contents i s.shared p m' p'
      → IsQuiet (record { shared = m'; pc = update s.pc i p' })
  Move-IsQuiet i s lt here quiet inv (refuse h) = refused-IsQuiet i s quiet
  Move-IsQuiet i s lt here quiet inv (check h) =
      running s _ _ quiet (ground (arith, quiet.ended)) (refl, refl, quiet.sound)
  Move-IsQuiet i s lt here quiet inv add =
      running s _ _ quiet (open_call (is_past_loop s.shared.monitor) refl) (refl, refl, quiet.sound)
    where
      open_call :
          (b : Bool) → is_past_loop s.shared.monitor ≡ b → is_past_loop s.shared.monitor ≡ false
      open_call true h = absurd (cc (sym (quiet.settled h i) ∙ ap is_checked here))
      open_call false h = h
  Move-IsQuiet i s lt here quiet inv take =
      running s _ _ quiet (forwarding i s lt quiet inv (ap forwards here)) (refl, refl, quiet.sound)
  Move-IsQuiet i s lt here quiet inv drain =
      running s _ _ quiet (forwarding i s lt quiet inv (ap forwards here)) (refl, refl, quiet.sound)
  Move-IsQuiet i s lt here quiet inv (send l o) =
      running s _ _ quiet (forwarding i s lt quiet inv (ap forwards here)) (refl, refl, quiet.sound)
  Move-IsQuiet i s lt here quiet inv (send_closed c) =
      absurd (closed_clash s.shared.monitor c (forwarding i s lt quiet inv (ap forwards here)))
    where
      closed_clash : (w : Monitor) → is_closed w ≡ true → is_past_loop w ≡ false → ⊥
      closed_clash w a b = ground arith
  Move-IsQuiet i s lt here quiet inv leave =
      running s _ _ quiet (forwarding i s lt quiet inv (ap forwards here)) (refl, refl, quiet.sound)

  Step-IsQuiet :
      {s t : Mux A} (st : Step contents n s t)
      → IsCalm st
      → IsQuiet s
      → Inv contents n s
      → IsQuiet t
  Step-IsQuiet {s} (move i lt ok mv) c quiet inv = Move-IsQuiet i s lt refl quiet inv mv
  Step-IsQuiet context_ends c quiet inv = record {
    sound = quiet.sound;
    ended = λ h. refl;
    empty = quiet.empty;
    settled = quiet.settled;
  }
  Step-IsQuiet stop_listening c quiet inv = record {
    sound = quiet.sound;
    ended = quiet.ended;
    empty = quiet.empty;
    settled = quiet.settled;
  }
  Step-IsQuiet (notice d w) c quiet inv = record {
    sound = quiet.sound;
    ended = λ h. d;
    empty = λ h. absurd (cc);
    settled = λ h. absurd (cc);
  }
  Step-IsQuiet {s} (exit w z) c quiet inv = record {
    sound = quiet.sound;
    ended = λ h. quiet.ended (ap has_noticed w);
    empty = λ h. z;
    settled = λ h. c;
  }
  Step-IsQuiet (close w) c quiet inv = record {
    sound = quiet.sound;
    ended = λ h. quiet.ended (ap has_noticed w);
    empty = λ h. quiet.empty (ap is_past_loop w);
    settled = λ h. quiet.settled (ap is_past_loop w);
  }

  pub CalmReach-IsQuiet : {s : Mux A} → CalmReach s → IsQuiet s
  unfolding new_multiplexer
  CalmReach-IsQuiet start_calm = record {
    sound = refl;
    ended = λ h. absurd (cc);
    empty = λ h. absurd (cc);
    settled = λ h. absurd (cc);
  }
  CalmReach-IsQuiet (later_calm r st c) =
      Step-IsQuiet st c (CalmReach-IsQuiet r) (Reach-Inv contents (CalmReach-Reach r))

  all_to_come :
      (i : ℕ) (p : Pc A)
      → forwards p ≡ 0
      → is_checked p ≡ false
      → is_accepted p ≡ true
      → to_come contents i p ≡ []
  all_to_come i p f c a = ground arith

  -- Where the monitor never leaves its loop while a call of AddChannel stands between its test and its
  -- count, nothing is ever sent on the closed channel: no goroutine panics.
  pub CalmReach-sound : {s : Mux A} → CalmReach s → s.shared.panicked ≡ false
  CalmReach-sound r = (CalmReach-IsQuiet r).sound

  -- Where the monitor never leaves its loop while a call of AddChannel stands between its test and its
  -- count: when the multiplexed channel is closed, all that an accepted channel held has been received,
  -- in its order.
  pub CalmReach-delivered :
      {s : Mux A} (i : ℕ)
      → CalmReach s
      → s.shared.monitor ≡ finished
      → i < n
      → is_accepted (s.pc i) ≡ true
      → received_from i s.shared.received ≡ contents i
  CalmReach-delivered {s} i r closed lt accepted =
      let quiet = CalmReach-IsQuiet r in
      let inv = Reach-Inv contents (CalmReach-Reach r) in
      let past : is_past_loop s.shared.monitor ≡ true = ap is_past_loop closed in
      let idle : forwards (s.pc i) ≡ 0 =
        omega (arith, total-member forwards n s.pc i lt, inv.counts, quiet.empty past) in
      sym (append-nil (received_from i s.shared.received))
      ∙ ap (λ l. received_from i s.shared.received ++ l)
          (sym (all_to_come i (s.pc i) idle (quiet.settled past i) accepted))
      ∙ inv.in_order i
