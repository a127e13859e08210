-- ===== src/Base/Sets.antt =====
-- Sets as lists (package sets), with a Boolean membership test that computes.
use mathlib.Core.Path.{◌≡◌, refl, sym, ◌∙◌}
use mathlib.Core.Bool.{Bool, true, false, Bool-set, ◌&&◌, ◌||◌, not}
use mathlib.Core.Logic.{inl, inr}
use mathlib.Core.Logic.Or
use mathlib.Core.List.{
  List, [], ◌∷◌, ◌++◌, Mem, Perm, mem-cons, mem-cons_self, mem-cons_of_mem, not-mem-nil, Nodup,
  Nodup-cons, Nodup-nil,
}
use mathlib.Core.List.Perm
use native.Mathlib.Omega.{arith}
use jpl.Base.Tests.{if◌then◌else◌, Bool-cases}

module _ {ℓ} {A : Type ℓ} (same : Discrete A) where
  abbrev pub is_same : A → A → Bool
  is_same x y = elim (same x y) [ yes p ↦ true | no p ↦ false ]

  -- Set.Has
  unfoldable pub contains : A → List A → Bool
  contains x [] = false
  contains x (y ∷ ys) = is_same x y || contains x ys

  -- Set.Insert
  unfoldable pub insert : A → List A → List A
  unfolding contains
  insert x s = if contains x s then s else s ++ x ∷ []

  -- Set.Delete
  unfoldable pub delete : A → List A → List A
  delete x [] = []
  delete x (y ∷ ys) = let rest = delete x ys in if is_same x y then rest else y ∷ rest

  pub contains_of_mem : (x : A) (l : List A) → Mem x l → contains x l ≡ true
  unfolding contains
  contains_of_mem x [] m = absurd (not-mem-nil m)
  contains_of_mem x (y ∷ ys) m =
      Or.elim (Bool-set _ _) (mem-cons.0 m) (λ e. ground arith)
        (λ later. ground (arith, contains_of_mem x ys later))

  pub mem_of_contains : (x : A) (l : List A) → contains x l ≡ true → Mem x l
  unfolding contains
  mem_of_contains x [] h = absurd (cc)
  mem_of_contains x (y ∷ ys) h = elim (same x y) [
    | yes p ↦ rw p mem-cons_self
    | no p ↦ mem-cons_of_mem y (mem_of_contains x ys (ground arith))
  ]

  pub not_mem_of_contains : (x : A) (l : List A) → contains x l ≡ false → ¬ Mem x l
  not_mem_of_contains x l h m = cc (contains_of_mem x l m)

  pub contains_of_not_mem : (x : A) (l : List A) → ¬ Mem x l → contains x l ≡ false
  contains_of_not_mem x l h = ground (arith, λ (e : contains x l ≡ true). h (mem_of_contains x l e))

  -- Lists with the same elements answer alike.
  pub contains_of_perm : (x : A) {l r : List A} → Perm l r → contains x l ≡ contains x r
  contains_of_perm x {l} {r} p = elim (Bool-cases (contains x l)) [
    | inl e ↦ e ∙ sym (contains_of_mem x r (Perm.subset p x (mem_of_contains x l e)))
    | inr e ↦
        e
        ∙ sym (
            contains_of_not_mem x r
              (λ m. not_mem_of_contains x l e (Perm.subset (Perm.symm p) x m)))
  ]

  pub contains-append :
      (x : A) (l r : List A) → contains x (l ++ r) ≡ (contains x l || contains x r)
  unfolding contains
  contains-append x [] r = refl
  contains-append x (y ∷ l) r = ground (arith, contains-append x l r)

  pub contains-insert :
      (x y : A) (s : List A) → contains y (insert x s) ≡ (contains y s || contains y (x ∷ []))
  unfolding insert
  contains-insert x y s = ground (arith, contains-append y s (x ∷ []))

  pub contains-delete :
      (x y : A) (s : List A) → contains y (delete x s) ≡ (not (is_same x y) && contains y s)
  unfolding delete contains
  contains-delete x y [] = ground arith
  contains-delete x y (z ∷ s) = ground (arith, contains-delete x y s)

  pub append-Nodup_last :
      (x : A) (l : List A) → Nodup l → contains x l ≡ false → Nodup (l ++ x ∷ [])
  unfolding contains
  append-Nodup_last x [] h fresh = Nodup-cons.1 (not-mem-nil, Nodup-nil)
  append-Nodup_last x (a ∷ l) h fresh =
      let (absent, distinct) = Nodup-cons.0 h in
      Nodup-cons.1 (
        not_mem_of_contains a (l ++ x ∷ [])
            (ground (arith, contains_of_not_mem a l absent, contains-append a l (x ∷ []))),
        append-Nodup_last x l distinct (ground arith),
      )

  pub insert-Nodup : (x : A) (l : List A) → Nodup l → Nodup (insert x l)
  unfolding insert
  insert-Nodup x l h = elim (Bool-cases (contains x l)) [
    | inl e ↦ rw (e, insert) h
    | inr e ↦ rw (e, insert) (append-Nodup_last x l h e)
  ]
