-- ===== src/Base/Family.antt =====
-- A state for each index, and what the first `n` of them add up to.
use Prim.Native.Nat.{ℕ, zero, suc, ◌+◌, ◌≤◌, ◌<◌}
use mathlib.Core.Path.{◌≡◌, refl}
use native.Mathlib.Omega.{arith}
use jpl.Base.Tests.{if◌then◌else◌, ◌==◌}

module _ {A : Type 0} where
  abbrev pub update : (ℕ → A) → ℕ → A → ℕ → A
  update pc i p j = if i == j then p else pc j

  pub update_self : (pc : ℕ → A) (i : ℕ) (p : A) → update pc i p i ≡ p
  update_self pc i p = ground arith

  unfoldable pub total : (A → ℕ) → ℕ → (ℕ → A) → ℕ
  total f zero pc = 0
  total f (suc n) pc = f (pc n) + total f n pc

  total-update_outside :
      (f : A → ℕ) (n : ℕ) (pc : ℕ → A) (i : ℕ) (p : A)
      → n ≤ i
      → total f n (update pc i p) ≡ total f n pc
  unfolding total
  total-update_outside f zero pc i p h = refl
  total-update_outside f (suc n) pc i p h = ground (arith, total-update_outside f n pc i p)

  pub total-update :
      (f : A → ℕ) (n : ℕ) (pc : ℕ → A) (i : ℕ) (p : A)
      → i < n
      → total f n (update pc i p) + f (pc i) ≡ total f n pc + f p
  unfolding total
  total-update f zero pc i p h = absurd (omega arith)
  total-update f (suc n) pc i p h =
      ground (arith, total-update f n pc i p, total-update_outside f n pc i p)

  pub total-member : (f : A → ℕ) (n : ℕ) (pc : ℕ → A) (i : ℕ) → i < n → f (pc i) ≤ total f n pc
  unfolding total
  total-member f zero pc i h = absurd (omega arith)
  total-member f (suc n) pc i h = ground (arith, total-member f n pc i)
