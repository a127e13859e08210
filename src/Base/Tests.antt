-- ===== src/Base/Tests.antt =====
-- Boolean tests on the native numbers, the conditional, and splits on a computed value.
use Prim.Native.Nat.{ℕ, compare, Ordering}
use mathlib.Core.Path.{◌≡◌, refl}
use mathlib.Core.Logic.{◌↔◌, ◌⊎◌, inl, inr, dite}
use mathlib.Core.Bool.{Bool, true, false}
use mathlib.Core.Option.{Option, none, some}
use native.Mathlib.Omega.{arith}

abbrev pub ltb : ℕ → ℕ → Bool
ltb a b = elim (compare a b) [ Ordering.lt ↦ true | _ ↦ false ]

abbrev pub leb : ℕ → ℕ → Bool
leb a b = elim (compare a b) [ Ordering.gt ↦ false | _ ↦ true ]

infix 50 ◌==◌
abbrev pub ◌==◌ : ℕ → ℕ → Bool
a == b = elim (compare a b) [ Ordering.eq ↦ true | _ ↦ false ]

infix 1 if◌then◌else◌
abbrev pub if◌then◌else◌ {ℓ} : {A : Type ℓ} → Bool → A → A → A
if true then x else y = x
if false then x else y = y

pub ==_iff : (a b : ℕ) → ((a == b) ≡ true) ↔ (a ≡ b)
==_iff a b = ground arith

pub Bool-cases : (b : Bool) → (b ≡ true) ⊎ (b ≡ false)
Bool-cases true = inl refl
Bool-cases false = inr refl

pub Option-cases {ℓ} : {A : Type ℓ} (o : Option A) → (o ≡ none) ⊎ ((a : A) × (o ≡ some a))
Option-cases none = inl refl
Option-cases (some a) = inr (a, refl)

pub dite_ind {ℓ κ μ} :
    {P : Type ℓ} {B : Type κ} (Q : B → Type μ) (d : Dec P) {x : P → B} {y : ¬ P → B}
    → ((h : P) → Q (x h))
    → ((h : ¬ P) → Q (y h))
    → Q (dite d x y)
dite_ind Q (yes h) at_yes at_no = at_yes h
dite_ind Q (no h) at_yes at_no = at_no h

-- A decision of `R` from decisions of its two parts.
abbrev pub dec_both {ℓ κ μ} :
    {P : Type ℓ} {Q : Type κ} {R : Type μ} → Dec P → Dec Q → (P → Q → R) → (R → P) → (R → Q) → Dec R
dec_both (no p) q make left right = no (λ r. p (left r))
dec_both (yes p) (no q) make left right = no (λ r. q (right r))
dec_both (yes p) (yes q) make left right = yes (make p q)

abbrev pub dec_pair {ℓ κ} : {P : Type ℓ} {Q : Type κ} → Dec P → Dec Q → Dec (P × Q)
dec_pair d e = dec_both d e (λ p q. (p, q)) (λ r. r.0) (λ r. r.1)
