-- ===== src/Poller/Multiplexer/Counting.antt =====
-- The counter counts the goroutines that forward, and nothing is lost, added or reordered.
use jpl.Base.{
  ℕ, zero, suc, ◌+◌, ◌<◌, ◌≤◌, List, [], ◌∷◌, ◌++◌, false, ◌≡◌, refl, sym, ◌∙◌, ap, arith,
  if◌then◌else◌, ◌==◌, ==_iff, append_assoc, append-nil, Bool-cases, inl, inr, subst,
}
use jpl.Base.Family.{update, total, total-update, total-member}
use jpl.Poller.Multiplexer.{
  Pc, unused, refused, admitted, reading, holding, drained, left_channel, Shared, Mux, Move, refuse,
  check, add, take, drain, send, send_closed, leave, Step, move, context_ends, stop_listening,
  notice, exit, close, new_multiplexer, Reach, at_start, later,
}

module _ {A : Type 0} where
  -- The goroutine of the channel runs.
  abbrev pub forwards : Pc A → ℕ
  forwards unused = 0
  forwards refused = 0
  forwards admitted = 0
  forwards (reading q) = 1
  forwards (holding e q) = 1
  forwards drained = 1
  forwards left_channel = 0

  -- What was received from one channel.
  abbrev pub received_from : ℕ → List (ℕ × A) → List A
  received_from i [] = []
  received_from i ((j, e) ∷ es) = let rest = received_from i es in if j == i then e ∷ rest else rest

  received_from-append :
      (i j : ℕ) (e : A) (es : List (ℕ × A))
      → received_from i (es ++ ((j, e) ∷ []))
        ≡ received_from i es ++ (if j == i then e ∷ [] else [])
  received_from-append i j e [] = ground arith
  received_from-append i j e ((k, x) ∷ es) = ground (arith, received_from-append i j e es)

module _ {A : Type 0} (contents : ℕ → List A) where
  -- What is still to come from a channel.
  abbrev pub to_come : ℕ → Pc A → List A
  to_come i unused = contents i
  to_come i refused = contents i
  to_come i admitted = contents i
  to_come i (reading q) = q
  to_come i (holding e q) = e ∷ q
  to_come i drained = []
  to_come i left_channel = []

  pub record Inv (n : ℕ) (s : Mux A) : Type 0 where
    pub counts : s.shared.counter ≡ total forwards n s.pc
    pub in_order : (i : ℕ) → received_from i s.shared.received ++ to_come i (s.pc i) ≡ contents i

  Move-weight :
      (i : ℕ) {m m' : Shared A} {p p' : Pc A}
      → Move contents i m p m' p'
      → forwards p ≤ m.counter
      → m'.counter + forwards p ≡ m.counter + forwards p'
  Move-weight i (refuse h) b = refl
  Move-weight i (check h) b = refl
  Move-weight i add b = omega arith
  Move-weight i take b = refl
  Move-weight i drain b = refl
  Move-weight i (send l o) b = refl
  Move-weight i (send_closed c) b = refl
  Move-weight i leave b = omega arith

  Move-counts :
      (n i : ℕ) (pc : ℕ → Pc A) {m m' : Shared A} {p p' : Pc A}
      → i < n
      → pc i ≡ p
      → m.counter ≡ total forwards n pc
      → Move contents i m p m' p'
      → m'.counter ≡ total forwards n (update pc i p')
  Move-counts n i pc {m} {p} {p'} lt here counts mv =
      let b : forwards p ≤ m.counter =
        omega (arith, total-member forwards n pc i lt, ap forwards here, counts) in
      omega
        (arith, total-update forwards n pc i p' lt, ap forwards here, counts, Move-weight i mv b)

  Move-own :
      (i : ℕ) {m m' : Shared A} {p p' : Pc A}
      → Move contents i m p m' p'
      → received_from i m.received ++ to_come i p ≡ contents i
      → received_from i m'.received ++ to_come i p' ≡ contents i
  Move-own i (refuse h) order = order
  Move-own i (check h) order = order
  Move-own i add order = order
  Move-own i take order = order
  Move-own i drain order = order
  Move-own i {m} (send {e} {rest} l o) order =
      ap (λ es. es ++ rest) (received_from-append i i e m.received)
      ∙ ground (arith, append_assoc (received_from i m.received) (e ∷ []) rest, order)
  Move-own i (send_closed c) order = order
  Move-own i leave order = order

  Move-other :
      (i j : ℕ) {m m' : Shared A} {p p' : Pc A}
      → Move contents i m p m' p'
      → (i == j) ≡ false
      → received_from j m'.received ≡ received_from j m.received
  Move-other i j (refuse h) other = refl
  Move-other i j (check h) other = refl
  Move-other i j add other = refl
  Move-other i j take other = refl
  Move-other i j drain other = refl
  Move-other i j {m} (send {e} l o) other =
      received_from-append j i e m.received
      ∙ ap (λ b. received_from j m.received ++ (if b then e ∷ [] else [])) other
      ∙ append-nil (received_from j m.received)
  Move-other i j (send_closed c) other = refl
  Move-other i j leave other = refl

  Move-in_order :
      (i j : ℕ) (pc : ℕ → Pc A) {m m' : Shared A} {p p' : Pc A}
      → pc i ≡ p
      → ((k : ℕ) → received_from k m.received ++ to_come k (pc k) ≡ contents k)
      → Move contents i m p m' p'
      → received_from j m'.received ++ to_come j (update pc i p' j) ≡ contents j
  Move-in_order i j pc {m} {m'} {p} {p'} here order mv = elim (Bool-cases (i == j)) [
    | inl e ↦ rw e (
        subst (λ k. received_from k m'.received ++ to_come k p' ≡ contents k) ((==_iff i j).0 e)
          (Move-own i mv
            (subst (λ q. received_from i m.received ++ to_come i q ≡ contents i) here (order i))))
    | inr e ↦ rw e (ap (λ es. es ++ to_come j (pc j)) (Move-other i j mv e) ∙ order j)
  ]

  Step-Inv : {n : ℕ} {s t : Mux A} → Inv n s → Step contents n s t → Inv n t
  Step-Inv {n} {s} inv (move i lt ok mv) = record {
    counts = Move-counts n i s.pc lt refl inv.counts mv;
    in_order = λ j. Move-in_order i j s.pc refl inv.in_order mv;
  }
  Step-Inv inv context_ends = record { counts = inv.counts; in_order = inv.in_order }
  Step-Inv inv stop_listening = record { counts = inv.counts; in_order = inv.in_order }
  Step-Inv inv (notice d w) = record { counts = inv.counts; in_order = inv.in_order }
  Step-Inv inv (exit w c) = record { counts = inv.counts; in_order = inv.in_order }
  Step-Inv inv (close w) = record { counts = inv.counts; in_order = inv.in_order }

  nothing-counts : (n : ℕ) → total (forwards {A = A}) n (λ i. unused) ≡ 0
  unfolding total
  nothing-counts zero = refl
  nothing-counts (suc n) = ground (arith, nothing-counts n)

  -- In every reachable state the counter is the number of goroutines that forward a channel, and what
  -- was received from a channel with what is still to come from it are its contents, in their order.
  pub Reach-Inv : {n : ℕ} {s : Mux A} → Reach contents n s → Inv n s
  unfolding new_multiplexer
  Reach-Inv {n} at_start = record { counts = sym (nothing-counts n); in_order = λ i. refl }
  Reach-Inv (later r st) = Step-Inv (Reach-Inv r) st
