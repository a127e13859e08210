-- ===== src/Poller/Multiplexer.antt =====
-- pkg/poller/multiplexer.go: the goroutines that forward the channels into one, and the one that
-- closes it. A channel is named by a number and holds what `contents` says of it, up to where its
-- sender closes it. Each access to the shared state is one step, and the steps of different goroutines
-- interleave in any order.
pub mod Counting
pub mod Closing
pub mod Abandoned
mod Examples
use jpl.Base.{ℕ, suc, ◌+◌, ◌-◌, ◌<◌, List, [], ◌∷◌, ◌++◌, Bool, true, false, ◌≡◌}
use jpl.Base.Family.{update}

-- The goroutine of newMultiplexer: it looks for the end of the context, has seen it, has left its loop
-- as the counter was zero, or has closed the channel.
pub data Monitor : Type 0 where
  watching : Monitor
  noticed : Monitor
  leaving : Monitor
  finished : Monitor

-- The call of AddChannel with a channel, and the goroutine that it starts, with what is still to come.
pub data Pc (A : Type 0) : Type 0 where
  unused : Pc A
  refused : Pc A
  admitted : Pc A
  reading : List A → Pc A
  holding : A → List A → Pc A
  drained : Pc A
  left_channel : Pc A

-- What the goroutines share; `listening` says that someone receives from the multiplexed channel, and
-- `received` is what has been received, with the channels that it came from.
pub record Shared (A : Type 0) : Type 0 where
  pub done : Bool
  pub counter : ℕ
  pub monitor : Monitor
  pub listening : Bool
  pub received : List (ℕ × A)
  pub panicked : Bool

pub record Mux (A : Type 0) : Type 0 where
  pub shared : Shared A
  pub pc : ℕ → Pc A

abbrev pub is_closed : Monitor → Bool
is_closed finished = true
is_closed watching = false
is_closed noticed = false
is_closed leaving = false

module _ {A : Type 0} (contents : ℕ → List A) where
  -- One step of the call or the goroutine of channel `i`. A send meets a receiver; on a closed channel
  -- it panics.
  pub data Move (i : ℕ) (m : Shared A) : Pc A → Shared A → Pc A → Type 0 where
    refuse : m.done ≡ true → Move i m unused m refused
    check : m.done ≡ false → Move i m unused m admitted
    add : Move i m admitted (record m { counter = m.counter + 1 }) (reading (contents i))
    take : {e : A} {rest : List A} → Move i m (reading (e ∷ rest)) m (holding e rest)
    drain : Move i m (reading []) m drained
    send :
        {e : A} {rest : List A}
        → m.listening ≡ true
        → is_closed m.monitor ≡ false
        → Move i m
            (holding e rest)
            (record m { received = m.received ++ ((i, e) ∷ []) })
            (reading rest)
    send_closed :
        {e : A} {rest : List A}
        → is_closed m.monitor ≡ true
        → Move i m (holding e rest) (record m { panicked = true }) (holding e rest)
    leave : Move i m drained (record m { counter = m.counter - 1 }) left_channel

  -- A step of one of `n` channels, of the context, of the receiver or of the monitor. A program that
  -- has panicked makes none.
  pub data Step (n : ℕ) (s : Mux A) : Mux A → Type 0 where
    move :
        (i : ℕ) {m : Shared A} {p : Pc A}
        → i < n
        → s.shared.panicked ≡ false
        → Move i s.shared (s.pc i) m p
        → Step n s (record { shared = m; pc = update s.pc i p })
    context_ends : Step n s (record s { shared = record s.shared { done = true } })
    stop_listening : Step n s (record s { shared = record s.shared { listening = false } })
    notice :
        s.shared.done ≡ true
        → s.shared.monitor ≡ watching
        → Step n s (record s { shared = record s.shared { monitor = noticed } })
    exit :
        s.shared.monitor ≡ noticed
        → s.shared.counter ≡ 0
        → Step n s (record s { shared = record s.shared { monitor = leaving } })
    close :
        s.shared.monitor ≡ leaving
        → Step n s (record s { shared = record s.shared { monitor = finished } })

-- newMultiplexer
unfoldable pub new_multiplexer : {A : Type 0} → Mux A
new_multiplexer = record {
  shared = record {
    done = false;
    counter = 0;
    monitor = watching;
    listening = true;
    received = [];
    panicked = false;
  };
  pc = λ i. unused;
}

module _ {A : Type 0} (contents : ℕ → List A) (n : ℕ) where
  pub data Reach : Mux A → Type 0 where
    at_start : Reach new_multiplexer
    later : {s t : Mux A} → Reach s → Step contents n s t → Reach t
