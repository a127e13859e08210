-- ===== src/Base/Lists.antt =====
-- Lists measured by native numbers, and a predicate on every element that computes.
use Prim.Native.Nat.{ℕ, suc, ◌+◌}
use mathlib.Core.Path.{◌≡◌, refl}
use mathlib.Core.List.{List, [], ◌∷◌, ◌++◌, cons≢nil}
use native.Mathlib.Omega.{arith}

module _ {ℓ} {A : Type ℓ} where
  abbrev pub length : List A → ℕ
  length [] = 0
  length (x ∷ xs) = suc (length xs)

  pub length-append : (xs ys : List A) → length (xs ++ ys) ≡ length xs + length ys
  length-append [] ys = omega arith
  length-append (x ∷ xs) ys = omega (arith, length-append xs ys)

  abbrev pub dec_nil : (xs : List A) → Dec (xs ≡ [])
  dec_nil [] = yes refl
  dec_nil (x ∷ xs) = no cons≢nil

  abbrev pub All {κ} : (A → Type κ) → List A → Type κ
  All P [] = Unit
  All P (x ∷ xs) = P x × All P xs

  pub All-append {κ} : (P : A → Type κ) (xs ys : List A) → All P xs → All P ys → All P (xs ++ ys)
  All-append P [] ys hx hy = hy
  All-append P (x ∷ xs) ys hx hy = (hx.0, All-append P xs ys hx.1 hy)

  unfoldable pub list_discrete : Discrete A → Discrete (List A)
  list_discrete same [] [] = yes refl
  list_discrete same [] (y ∷ t) = no (cc)
  list_discrete same (x ∷ s) [] = no (cc)
  list_discrete same (x ∷ s) (y ∷ t) = elim (same x y) [
    | yes p ↦ elim (list_discrete same s t) [ yes q ↦ yes (cc) | no q ↦ no (λ e. q (cc)) ]
    | no p ↦ no (λ e. p (cc))
  ]
