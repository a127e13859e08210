-- ===== src/Base/Strings/Laws.antt =====
-- Laws of Split, Join, TrimSpace and ReplaceAll.
use Prim.Native.Nat.{ℕ}
use mathlib.Core.Path.{◌≡◌, refl, sym, ap, ◌∙◌}
use mathlib.Core.Bool.{Bool, true, false, not}
use mathlib.Core.Logic.{◌≢◌}
use mathlib.Core.List.{List, [], ◌∷◌, ◌++◌, reverse, reverse-append, reverse-reverse, append_assoc}
use native.Mathlib.Omega.{arith}
use jpl.Base.Tests.{if◌then◌else◌}
use jpl.Base.Lists.{All, All-append}
use jpl.Base.Strings.{Str, split, join, is_space, trim_left, trim_space}

-- No code point of the text is `c`.
abbrev pub Lacks : ℕ → Str → Type 0
Lacks c = All (λ x. x ≢ c)

pub Lacks-append : (c : ℕ) (s t : Str) → Lacks c s → Lacks c t → Lacks c (s ++ t)
Lacks-append c = All-append (λ x. x ≢ c)

split_lacking : (sep : ℕ) (s : Str) → Lacks sep s → split sep s ≡ s ∷ []
unfolding split
split_lacking sep [] h = refl
split_lacking sep (c ∷ s) h = ground (arith, split_lacking sep s)

split-append :
    (sep : ℕ) (p rest : Str) → Lacks sep p → split sep (p ++ sep ∷ rest) ≡ p ∷ split sep rest
unfolding split
split-append sep [] rest h = ground arith
split-append sep (c ∷ p) rest h = ground (arith, split-append sep p rest)

-- Splitting a joined text gives the parts back, where none holds the separator.
pub split-join :
    (sep : ℕ) (p : Str) (ps : List Str)
    → All (Lacks sep) (p ∷ ps)
    → split sep (join sep (p ∷ ps)) ≡ p ∷ ps
unfolding join
split-join sep p [] h = split_lacking sep p h.0
split-join sep p (q ∷ ps) h =
    split-append sep p (join sep (q ∷ ps)) h.0 ∙ ap (◌∷◌ p) (split-join sep q ps h.1)

-- The text does not begin with white space.
abbrev pub starts_visible : Str → Bool
starts_visible [] = true
starts_visible (c ∷ s) = not (is_space c)

if_not {ℓ} : {A : Type ℓ} (b : Bool) (x y : A) → not b ≡ true → (if b then x else y) ≡ y
if_not true x y h = absurd (cc)
if_not false x y h = refl

trim_left_visible : (s : Str) → starts_visible s ≡ true → trim_left s ≡ s
unfolding trim_left
trim_left_visible [] h = refl
trim_left_visible (c ∷ s) h = if_not (is_space c) (trim_left s) (c ∷ s) h

pub trim_space_visible :
    (s : Str) → starts_visible s ≡ true → starts_visible (reverse s) ≡ true → trim_space s ≡ s
unfolding trim_space
trim_space_visible s h k =
    ap (λ x. reverse (trim_left (reverse x))) (trim_left_visible s h)
    ∙ ap reverse (trim_left_visible (reverse s) k)
    ∙ reverse-reverse s

pub starts_visible-append :
    (s t : Str) → starts_visible s ≡ true → starts_visible t ≡ true → starts_visible (s ++ t) ≡ true
starts_visible-append [] t h k = k
starts_visible-append (c ∷ s) t h k = h

-- A text with a visible end still has one behind any other text.
pub starts_visible-reverse_append :
    (s t : Str)
    → t ≢ []
    → starts_visible (reverse t) ≡ true
    → starts_visible (reverse (s ++ t)) ≡ true
starts_visible-reverse_append s t some_text h = rw reverse-append (go (reverse t) refl h)
  where
    go :
        (r : Str) → reverse t ≡ r → starts_visible r ≡ true → starts_visible (r ++ reverse s) ≡ true
    go [] e h' = absurd (some_text (sym (reverse-reverse t) ∙ ap reverse e))
    go (c ∷ r) e h' = h'

-- A joined text ends in its last part.
pub join_last : (sep : ℕ) (ps : List Str) (q : Str) → (s : Str) × (join sep (ps ++ q ∷ []) ≡ s ++ q)
unfolding join
join_last sep [] q = ([], refl)
join_last sep (p ∷ []) q = (p ++ sep ∷ [], simp append_assoc)
join_last sep (p ∷ p' ∷ ps) q =
    let (s, e) = join_last sep (p' ∷ ps) q in (p ++ sep ∷ s, rw e (simp append_assoc))

pub Lacks-join : (c sep : ℕ) (ps : List Str) → sep ≢ c → All (Lacks c) ps → Lacks c (join sep ps)
unfolding join
Lacks-join c sep [] h hs = tt
Lacks-join c sep (p ∷ []) h hs = hs.0
Lacks-join c sep (p ∷ q ∷ ps) h hs =
    Lacks-append c p (sep ∷ join sep (q ∷ ps)) hs.0 (h, Lacks-join c sep (q ∷ ps) h hs.1)
