-- ===== src/Base/Values.antt =====
-- A property of all the values of a map.
use mathlib.Core.Path.{◌≡◌, sym, subst}
use mathlib.Core.Logic.{ite}
use mathlib.Core.Logic.Or
use mathlib.Core.Bool.{Bool, true, Bool-set}
use mathlib.Core.Option.{some}
use mathlib.Core.List.{
  List, [], ◌∷◌, Mem, mem-cons, mem-cons_self, mem-cons_of_mem, not-mem-nil, Perm,
}
use mathlib.Core.List.Perm
use native.Mathlib.Omega.{arith}
use jpl.Base.Lists.{All}
use jpl.Base.Maps.{get, put}

-- All the values of a map.
abbrev pub Values : {K V : Type 0} → (V → Type 0) → List (K × V) → Type 0
Values {K} {V} P m = All (λ (e : K × V). P e.1) m

module _ {K V : Type 0} (same : Discrete K) (P : V → Type 0) where
  pub Values-put : (k : K) (v : V) (m : List (K × V)) → P v → Values P m → Values P (put same k v m)
  unfolding put
  Values-put k v [] p h = (p, tt)
  Values-put k v ((j, w) ∷ m) p h =
      elim (same j k) as (λ d. Values P (ite d ((k, v) ∷ m) ((j, w) ∷ put same k v m))) [
        | yes e ↦ (p, h.1)
        | no n ↦ (h.0, Values-put k v m p h.1)
      ]

  pub Values-get : (k : K) (v : V) (m : List (K × V)) → Values P m → get same k m ≡ some v → P v
  unfolding get
  Values-get k v [] h e = absurd (cc)
  Values-get k v ((j, w) ∷ m) h e = elim (same j k) [
    | yes p ↦ subst P {x = w} {y = v} (ground arith) h.0
    | no n ↦ Values-get k v m h.1 (ground arith)
  ]

abbrev pub Passes : {V : Type 0} → (V → Bool) → V → Type 0
Passes test v = test v ≡ true

module _ {K V : Type 0} (test : V → Bool) where
  Values-mem : (m : List (K × V)) (e : K × V) → Mem e m → Values (Passes test) m → Passes test e.1
  Values-mem [] e n h = absurd (not-mem-nil n)
  Values-mem (x ∷ m) e n h =
      Or.elim (Bool-set _ _) (mem-cons.0 n)
        (λ p. subst (λ (y : K × V). Passes test y.1) (sym p) h.0)
        (λ later. Values-mem m e later h.1)

  Values-of_mem :
      (m : List (K × V)) → ((e : K × V) → Mem e m → Passes test e.1) → Values (Passes test) m
  Values-of_mem [] h = tt
  Values-of_mem (x ∷ m) h = (h x mem-cons_self, Values-of_mem m (λ e n. h e (mem-cons_of_mem x n)))

  -- The order of the entries does not matter.
  pub Values-of_perm :
      {m m' : List (K × V)} → Perm m' m → Values (Passes test) m → Values (Passes test) m'
  Values-of_perm {m} {m'} p h = Values-of_mem m' (λ e n. Values-mem m e (Perm.subset p e n) h)
