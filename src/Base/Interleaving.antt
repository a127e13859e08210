-- ===== src/Base/Interleaving.antt =====
-- The orders in which two goroutines write to one channel.
use mathlib.Core.Path.{◌≡◌, refl, ap₂}
use mathlib.Core.List.{List, [], ◌∷◌, ◌++◌}

module _ {A : Type 0} where
  -- The last list holds the elements of the first two, each in its order.
  pub data IsInterleaving : List A → List A → List A → Type 0 where
    neither : IsInterleaving [] [] []
    from_left :
        (x : A) {ls rs all : List A}
        → IsInterleaving ls rs all
        → IsInterleaving (x ∷ ls) rs (x ∷ all)
    from_right :
        (x : A) {ls rs all : List A}
        → IsInterleaving ls rs all
        → IsInterleaving ls (x ∷ rs) (x ∷ all)

  -- A first part of an interleaving is one of first parts.
  pub IsInterleaving-prefix :
      (first rest : List A) {ls rs all : List A}
      → IsInterleaving ls rs all
      → first ++ rest ≡ all
      → (l l' r r' : List A) × IsInterleaving l r first × (l ++ l' ≡ ls) × (r ++ r' ≡ rs)
  IsInterleaving-prefix [] rest {ls} {rs} m h = ([], ls, [], rs, neither, refl, refl)
  IsInterleaving-prefix (y ∷ first) rest neither h = absurd (cc h)
  IsInterleaving-prefix (y ∷ first) rest (from_left x {ls} {rs} {all} m) h =
      let same : y ≡ x = cc h in
      let later : first ++ rest ≡ all = cc h in
      let (l, l', r, r', part, left_part, right_part) = IsInterleaving-prefix first rest m later in
      (y ∷ l, l', r, r', from_left y part, ap₂ (λ z t. z ∷ t) same left_part, right_part)
  IsInterleaving-prefix (y ∷ first) rest (from_right x {ls} {rs} {all} m) h =
      let same : y ≡ x = cc h in
      let later : first ++ rest ≡ all = cc h in
      let (l, l', r, r', part, left_part, right_part) = IsInterleaving-prefix first rest m later in
      (l, l', y ∷ r, r', from_right y part, left_part, ap₂ (λ z t. z ∷ t) same right_part)
