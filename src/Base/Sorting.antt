-- ===== src/Base/Sorting.antt =====
-- sort.Sort by a test on keys. The library's algorithm is not stable: what the program may rely on
-- is that the result is a sorted permutation, which is unique where the keys are distinct.
use mathlib.Core.Path.{◌≡◌, sym, ap₂, ap, ◌∙◌}
use mathlib.Core.HLevel.{hedberg}
use mathlib.Core.Bool.{Bool, true, false, Bool-set}
use mathlib.Core.Logic.Or
use mathlib.Core.Logic.{inl, inr}
use mathlib.Core.List.{
  List, [], ◌∷◌, Mem, Perm, Pairwise, Nodup, Nodup-cons, map, not-mem-nil, mem-map_of_mem, mem-cast,
  mem-cons, mem-cons_self, mem-cons_of_mem, Pairwise-singleton,
}
use mathlib.Core.List.Pairwise
use mathlib.Core.List.Perm
use native.Mathlib.Omega.{arith}
use jpl.Base.Tests.{if◌then◌else◌, Bool-cases}
use jpl.Base.Order.{IsStrict, IsConnected}

module _ {ℓ} {A : Type ℓ} (lt : A → A → Bool) where
  insert_sorted : A → List A → List A
  insert_sorted x [] = x ∷ []
  insert_sorted x (y ∷ ys) =
      let rest = insert_sorted x ys in if lt y x then y ∷ rest else x ∷ y ∷ ys

  unfoldable pub sort : List A → List A
  unfolding insert_sorted
  sort [] = []
  sort (x ∷ xs) = insert_sorted x (sort xs)

  -- No element is less than one before it.
  abbrev pub IsSorted : List A → Type ℓ
  IsSorted = Pairwise (λ a b. lt b a ≡ false)

  insert_sorted-perm : (x : A) (l : List A) → Perm (insert_sorted x l) (x ∷ l)
  unfolding insert_sorted
  insert_sorted-perm x [] = Perm.rfl
  insert_sorted-perm x (y ∷ ys) = elim (Bool-cases (lt y x)) [
    | inl e ↦ rw e (Perm.trans (Perm.cons y (insert_sorted-perm x ys)) (Perm.swap x y ys))
    | inr e ↦ rw e Perm.rfl
  ]

  pub sort-perm : (l : List A) → Perm (sort l) l
  unfolding sort
  sort-perm [] = Perm.rfl
  sort-perm (x ∷ xs) = Perm.trans (insert_sorted-perm x (sort xs)) (Perm.cons x (sort-perm xs))

module _ {ℓ} {A K : Type ℓ} (key : A → K) where
  -- Elements with one key are one element.
  abbrev pub HasDistinctKeys : List A → Type ℓ
  HasDistinctKeys l = (x y : A) → Mem x l → Mem y l → key x ≡ key y → x ≡ y

module _ {ℓ} {A K : Type ℓ} (key : A → K) (below : K → K → Bool) (strict : IsStrict below)
    (connected : IsConnected below) where
  abbrev lt_by : A → A → Bool
  lt_by a b = below (key a) (key b)

  abbrev IsAtMost : A → A → Type 0
  IsAtMost a b = below (key b) (key a) ≡ false

  IsAtMost-trans : (a b c : A) → IsAtMost a b → IsAtMost b c → IsAtMost a c
  IsAtMost-trans a b c p q =
      ground (arith, strict.trans (key b) (key c) (key a), connected (key b) (key c))

  IsAtMost-of_lt : (a b : A) → below (key a) (key b) ≡ true → IsAtMost a b
  IsAtMost-of_lt a b p = ground (arith, strict.trans (key a) (key b) (key a), strict.irrefl (key a))

  IsAtMost-insert :
      (y x : A) (l : List A)
      → IsAtMost y x
      → ((z : A) → Mem z l → IsAtMost y z)
      → (z : A) → Mem z (insert_sorted lt_by x l)
      → IsAtMost y z
  IsAtMost-insert y x l hx hl z m =
      Or.elim (Bool-set _ _) (mem-cons.0 (Perm.subset (insert_sorted-perm lt_by x l) z m))
        (λ e. rw e hx) (hl z)

  insert_sorted-IsSorted :
      (x : A) {l : List A} → IsSorted lt_by l → IsSorted lt_by (insert_sorted lt_by x l)
  unfolding insert_sorted
  insert_sorted-IsSorted x Pairwise.nil = Pairwise-singleton _ x
  insert_sorted-IsSorted x (Pairwise.cons {a = y} {l = ys} first s) =
      elim (Bool-cases (lt_by y x)) [
        | inl e ↦ rw e (
            Pairwise.cons (IsAtMost-insert y x ys (IsAtMost-of_lt y x e) first)
              (insert_sorted-IsSorted x s))
        | inr e ↦ rw e (Pairwise.cons (before e) (Pairwise.cons first s))
      ]
    where
      before : lt_by y x ≡ false → (z : A) → Mem z (y ∷ ys) → IsAtMost x z
      before e z m =
          Or.elim (Bool-set _ _) (mem-cons.0 m) (λ p. rw p e)
            (λ later. IsAtMost-trans x y z e (first z later))

  pub sort-IsSorted : (l : List A) → IsSorted lt_by (sort lt_by l)
  unfolding sort
  sort-IsSorted [] = Pairwise.nil
  sort-IsSorted (x ∷ xs) = insert_sorted-IsSorted x (sort-IsSorted xs)

  IsAtMost-head :
      {a b : A} {l r : List A} → IsSorted lt_by (a ∷ l) → Perm (b ∷ r) (a ∷ l) → IsAtMost a b
  IsAtMost-head {a} {b} (Pairwise.cons first s) p =
      Or.elim (Bool-set _ _) (mem-cons.0 (Perm.subset p b mem-cons_self))
        (λ e. rw e (strict.irrefl (key a))) (first b)

  -- A list with distinct keys has one sorted permutation.
  pub IsSorted-eq_of_perm :
      {l r : List A}
      → HasDistinctKeys key l
      → IsSorted lt_by l
      → IsSorted lt_by r
      → Perm l r
      → l ≡ r
  IsSorted-eq_of_perm {l = []} d sl sr p = Perm.nil-eq p
  IsSorted-eq_of_perm {l = a ∷ l} {r = []} d sl sr p = Perm.eq-nil p
  IsSorted-eq_of_perm {l = a ∷ l} {r = b ∷ r} d sl sr p =
      let keys_agree =
        connected (key a) (key b) (IsAtMost-head sr p) (IsAtMost-head sl (Perm.symm p)) in
      let heads = d a b mem-cons_self (Perm.subset (Perm.symm p) b mem-cons_self) keys_agree in
      let tails = Perm.cons_inv (Perm.trans p (Perm.symm (Perm.cons' heads Perm.rfl))) in
      let d' : HasDistinctKeys key l =
        λ x y mx my. d x y (mem-cons_of_mem a mx) (mem-cons_of_mem a my) in
      ap₂ ◌∷◌ heads
        (IsSorted-eq_of_perm {l = l} d' (Pairwise.of_cons sl) (Pairwise.of_cons sr) tails)

  pub sort-eq_of_perm :
      {l r : List A} → HasDistinctKeys key l → Perm l r → sort lt_by l ≡ sort lt_by r
  sort-eq_of_perm {l} {r} d p =
      IsSorted-eq_of_perm
        (λ x y mx my.
          d x y (Perm.subset (sort-perm lt_by l) x mx) (Perm.subset (sort-perm lt_by l) y my))
        (sort-IsSorted l) (sort-IsSorted r)
        (Perm.trans (sort-perm lt_by l) (Perm.trans p (Perm.symm (sort-perm lt_by r))))

module _ {ℓ} {A K : Type ℓ} (same : Discrete A) (key : A → K) where
  -- A list has distinct keys if the list of its keys has no duplicates.
  pub HasDistinctKeys-of_Nodup : (l : List A) → Nodup (map key l) → HasDistinctKeys key l
  HasDistinctKeys-of_Nodup [] h x y mx my e = absurd (not-mem-nil mx)
  HasDistinctKeys-of_Nodup (a ∷ l) h x y mx my e =
      let (fresh, later) = Nodup-cons.0 h in
      Or.elim (hedberg same x y) (mem-cons.0 mx)
        (λ p.
          Or.elim (hedberg same x y) (mem-cons.0 my) (λ q. p ∙ sym q)
            (λ n. absurd (fresh (mem-cast (sym (ap key p) ∙ e) (mem-map_of_mem key n)))))
        (λ m.
          Or.elim (hedberg same x y) (mem-cons.0 my)
            (λ q. absurd (fresh (mem-cast (sym (ap key q) ∙ sym e) (mem-map_of_mem key m))))
            (λ n. HasDistinctKeys-of_Nodup l later x y m n e))
