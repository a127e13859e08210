-- ===== src/Poller/Multiplexer/Examples.antt =====
-- Runs with one channel that holds one value.
use jpl.Base.{ℕ, List, [], ◌∷◌, true, false, ◌≡◌, refl, arith, if◌then◌else◌, ◌==◌}
use jpl.Poller.Multiplexer.{
  Mux, holding, check, add, take, drain, send, leave, move, context_ends, stop_listening, notice,
  exit, close, finished, new_multiplexer,
}
use jpl.Poller.Multiplexer.Closing.{
  CalmReach, start_calm, later_calm, is_accepted, is_past_loop, CalmReach-delivered,
  CalmReach-sound,
}
use jpl.Poller.Multiplexer.Counting.{received_from}
use jpl.Poller.Multiplexer.Abandoned.{here, IsStranded, IsStranded-forever}

abbrev contents : ℕ → List ℕ
contents i = if i == 0 then 7 ∷ [] else []

-- The value is taken from its channel.
taken : (s : Mux ℕ) × CalmReach contents 1 s × (s.pc 0 ≡ holding 7 []) × (s.shared.listening ≡ true)
unfolding new_multiplexer
taken = (
  _,
  later_calm
      (later_calm (later_calm start_calm (move 0 (omega arith) refl (check refl)) tt)
        (move 0 (omega arith) refl add) tt)
      (move 0 (omega arith) refl take) tt,
  refl,
  refl,
)

-- The value is received, the context ends and the channel is closed.
closed :
    (s : Mux ℕ) × CalmReach contents 1 s
    × (s.shared.monitor ≡ finished)
    × (is_accepted (s.pc 0) ≡ true)
unfolding taken new_multiplexer
closed = (
  _,
  later_calm
      (later_calm
        (later_calm
          (later_calm
            (later_calm
              (later_calm (later_calm taken.1 (move 0 (omega arith) refl (send refl refl)) tt)
                (move 0 (omega arith) refl drain) tt)
              (move 0 (omega arith) refl leave) tt)
            context_ends tt)
          (notice refl refl) tt)
        (exit refl refl) (λ i. ground arith))
      (close refl) tt,
  refl,
  refl,
)

CalmReach-sound_example : closed.0.shared.panicked ≡ false
CalmReach-sound_example = CalmReach-sound contents 1 closed.1

CalmReach-delivered_example : received_from 0 closed.0.shared.received ≡ 7 ∷ []
CalmReach-delivered_example =
    CalmReach-delivered contents 1 0 closed.1 closed.2 (omega arith) closed.3

abandoned : (s : Mux ℕ) × CalmReach contents 1 s × IsStranded contents 1 0 7 [] s
unfolding taken new_multiplexer
abandoned = (_, later_calm taken.1 stop_listening tt, record { deaf = refl; stuck = refl })

IsStranded-forever_example :
    IsStranded contents 1 0 7 [] abandoned.0 × (is_past_loop abandoned.0.shared.monitor ≡ false)
IsStranded-forever_example =
    IsStranded-forever contents 1 0 7 [] (omega arith) abandoned.1 abandoned.2 here
