-- ===== src/Poller/Multiplexer/Abandoned.antt =====
-- What goes wrong: a receiver that leaves, and a call of AddChannel that overlaps the end.
use jpl.Base.{
  ℕ, ◌<◌, List, ◌∷◌, true, false, ◌≡◌, refl, sym, ◌∙◌, ap, arith, ◌==◌, ==_iff, ◌⊎◌, Bool-cases,
  inl, inr, subst,
}
use jpl.Base.Family.{update}
use jpl.Poller.Multiplexer.{
  Pc, reading, holding, Shared, Mux, Move, refuse, check, add, take, drain, send, send_closed,
  leave, Step, move, context_ends, stop_listening, notice, exit, close, new_multiplexer, Reach,
  at_start, later,
}
use jpl.Poller.Multiplexer.Counting.{forwards, Reach-Inv}
use jpl.Poller.Multiplexer.Closing.{
  IsCalm, CalmReach, later_calm, CalmReach-Reach, CalmReach-IsQuiet, forwarding, is_past_loop,
}

module _ {A : Type 0} (contents : ℕ → List A) (n : ℕ) where
  -- What may follow a state.
  pub data CalmSteps (s : Mux A) : Mux A → Type 0 where
    here : CalmSteps s s
    further :
        {t u : Mux A}
        → CalmSteps s t
        → (st : Step contents n t u) → IsCalm contents n st
        → CalmSteps s u

  -- Nobody receives, and the goroutine of the channel has an event to send.
  pub record IsStranded (i : ℕ) (e : A) (rest : List A) (s : Mux A) : Type 0 where
    pub deaf : s.shared.listening ≡ false
    pub stuck : s.pc i ≡ holding e rest

  Move-stuck :
      (i : ℕ) (e : A) (rest : List A) {m m' : Shared A} {p p' : Pc A}
      → p ≡ holding e rest
      → m.listening ≡ false
      → Move contents i m p m' p'
      → p' ≡ holding e rest
  Move-stuck i e rest h deaf (refuse d) = absurd (cc)
  Move-stuck i e rest h deaf (check d) = absurd (cc)
  Move-stuck i e rest h deaf add = absurd (cc)
  Move-stuck i e rest h deaf take = absurd (cc)
  Move-stuck i e rest h deaf drain = absurd (cc)
  Move-stuck i e rest h deaf (send l o) = absurd (cc)
  Move-stuck i e rest h deaf (send_closed c) = h
  Move-stuck i e rest h deaf leave = absurd (cc)

  Move-listening :
      (i : ℕ) {m m' : Shared A} {p p' : Pc A}
      → Move contents i m p m' p'
      → m'.listening ≡ m.listening
  Move-listening i (refuse d) = refl
  Move-listening i (check d) = refl
  Move-listening i add = refl
  Move-listening i take = refl
  Move-listening i drain = refl
  Move-listening i (send l o) = refl
  Move-listening i (send_closed c) = refl
  Move-listening i leave = refl

  Step-IsStranded :
      (i : ℕ) (e : A) (rest : List A) {s t : Mux A}
      → Step contents n s t
      → IsStranded i e rest s
      → IsStranded i e rest t
  Step-IsStranded i e rest {s} (move j {p} lt ok mv) h = record {
    deaf = Move-listening j mv ∙ h.deaf;
    stuck = at_index (Bool-cases (j == i));
  }
    where
      at_index : ((j == i) ≡ true) ⊎ ((j == i) ≡ false) → update s.pc j p i ≡ holding e rest
      at_index (inl same) =
          rw same (Move-stuck j e rest (ap s.pc ((==_iff j i).0 same) ∙ h.stuck) h.deaf mv)
      at_index (inr other) = rw other h.stuck
  Step-IsStranded i e rest context_ends h = record { deaf = h.deaf; stuck = h.stuck }
  Step-IsStranded i e rest stop_listening h = record { deaf = refl; stuck = h.stuck }
  Step-IsStranded i e rest (notice d w) h = record { deaf = h.deaf; stuck = h.stuck }
  Step-IsStranded i e rest (exit w z) h = record { deaf = h.deaf; stuck = h.stuck }
  Step-IsStranded i e rest (close w) h = record { deaf = h.deaf; stuck = h.stuck }

  CalmSteps-CalmReach :
      {s t : Mux A} → CalmReach contents n s → CalmSteps s t → CalmReach contents n t
  CalmSteps-CalmReach r here = r
  CalmSteps-CalmReach r (further ss st c) = later_calm (CalmSteps-CalmReach r ss) st c

  CalmSteps-IsStranded :
      (i : ℕ) (e : A) (rest : List A) {s t : Mux A}
      → CalmSteps s t
      → IsStranded i e rest s
      → IsStranded i e rest t
  CalmSteps-IsStranded i e rest here h = h
  CalmSteps-IsStranded i e rest (further ss st c) h =
      Step-IsStranded i e rest st (CalmSteps-IsStranded i e rest ss h)

  -- Where the receiver has left while a goroutine has an event to send, that goroutine stays where it
  -- is, the monitor never leaves its loop and the multiplexed channel is never closed, whatever
  -- follows, if no call of AddChannel overlaps the end.
  pub IsStranded-forever :
      (i : ℕ) (e : A) (rest : List A) {s t : Mux A}
      → i < n
      → CalmReach contents n s
      → IsStranded i e rest s
      → CalmSteps s t
      → IsStranded i e rest t × (is_past_loop t.shared.monitor ≡ false)
  IsStranded-forever i e rest {t} lt r h ss =
      let later_on = CalmSteps-IsStranded i e rest ss h in
      let reached = CalmSteps-CalmReach r ss in
      (
        later_on,
        forwarding contents n i t lt (CalmReach-IsQuiet contents n reached)
            (Reach-Inv contents (CalmReach-Reach contents n reached)) (ap forwards later_on.stuck),
      )

take_first :
    {A : Type 0} (contents : ℕ → List A) (i : ℕ) (m : Shared A) (e : A) (q rest : List A)
    → q ≡ e ∷ rest
    → Move contents i m (reading q) m (holding e rest)
take_first contents i m e q rest h =
    subst (λ x. Move contents i m (reading x) m (holding e rest)) (sym h) take

-- If the context ends between the test and the count of a call of AddChannel whose channel holds an
-- event, the monitor may close the multiplexed channel before the event is sent: the send panics.
pub add_channel-race :
    {A : Type 0} (contents : ℕ → List A) (e : A) (rest : List A)
    → contents 0 ≡ e ∷ rest
    → (s : Mux A) × Reach contents 1 s × (s.shared.panicked ≡ true)
unfolding new_multiplexer
add_channel-race contents e rest h = (
  _,
  later
      (later
        (later
          (later
            (later
              (later (later (later at_start (move 0 (omega arith) refl (check refl))) context_ends)
                (notice refl refl))
              (exit refl refl))
            (close refl))
          (move 0 (omega arith) refl add))
        (move 0 (omega arith) refl (take_first contents 0 _ e (contents 0) rest h)))
      (move 0 (omega arith) refl (send_closed refl)),
  refl,
)
