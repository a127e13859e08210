-- ===== src/Base/Int.antt =====
-- Go's signed integers, under the library's names (its ℤ stands on the unary ℕ).
use Prim.Native.Nat.{ℕ, suc, ◌+◌, ◌-◌}
use mathlib.Core.Path.{◌≡◌}
use mathlib.Core.Bool.{Bool}
use native.Mathlib.Decide.{ℕ_discrete}
use native.Mathlib.Omega.{arith}
use jpl.Base.Tests.{ltb, leb, if◌then◌else◌}

-- `negsuc n` is -(n + 1).
pub data ℤ : Type 0 where
  pos : ℕ → ℤ
  negsuc : ℕ → ℤ

abbrev pub pos_part : ℤ → ℕ
pos_part (pos n) = n
pos_part (negsuc n) = 0

abbrev pub neg_part : ℤ → ℕ
neg_part (pos n) = 0
neg_part (negsuc n) = suc n

-- a - b, as an integer.
abbrev pub sub_ℕ : ℕ → ℕ → ℤ
sub_ℕ a b = if leb b a then pos (a - b) else negsuc (b - a - 1)

-- `a < b`
abbrev pub ltb_ℤ : ℤ → ℤ → Bool
ltb_ℤ a b = ltb (pos_part a + neg_part b) (pos_part b + neg_part a)

pub ℤ-ext : {a b : ℤ} → pos_part a ≡ pos_part b → neg_part a ≡ neg_part b → a ≡ b
ℤ-ext {a} {b} p q = ground arith

unfoldable pub ℤ_discrete : Discrete ℤ
unfolding ℕ_discrete
ℤ_discrete (pos m) (pos n) = elim (ℕ_discrete m n) [ yes p ↦ yes (cc) | no p ↦ no (λ e. p (cc)) ]
ℤ_discrete (pos m) (negsuc n) = no (cc)
ℤ_discrete (negsuc m) (pos n) = no (cc)
ℤ_discrete (negsuc m) (negsuc n) = elim (ℕ_discrete m n) [
  | yes p ↦ yes (cc)
  | no p ↦ no (λ e. p (cc))
]
