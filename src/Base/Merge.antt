-- ===== src/Base/Merge.antt =====
-- Loops that write one map into another.
use mathlib.Core.Path.{◌≡◌, refl, subst}
use mathlib.Core.Logic.{ite}
use mathlib.Core.Option.{Option, none, some}
use mathlib.Core.List.{List, [], ◌∷◌, Mem, Nodup, Nodup-cons, mem-cons_self, mem-cons_of_mem}
use native.Mathlib.Omega.{arith}
use jpl.Base.Maps.{keys, get, put, get-put}

abbrev pub first_of {ℓ} : {A : Type ℓ} → Option A → Option A → Option A
first_of (some a) other = some a
first_of none other = other

module _ {K V : Type 0} (same : Discrete K) where
  -- `for k, v := range new { m[k] = v }`
  unfoldable pub put_all : List (K × V) → List (K × V) → List (K × V)
  put_all [] m = m
  put_all ((k, v) ∷ new) m = put_all new (put same k v m)

  abbrev pub put_missing : K → V → List (K × V) → Option V → List (K × V)
  put_missing k v m (some old) = m
  put_missing k v m none = put same k v m

  -- `for k, v := range new { if _, found := m[k]; !found { m[k] = v } }`
  unfoldable pub fill_missing : List (K × V) → List (K × V) → List (K × V)
  fill_missing [] m = m
  fill_missing ((k, v) ∷ new) m = fill_missing new (put_missing k v m (get same k m))

  get_missing : (k : K) (m : List (K × V)) → ¬ Mem k (keys m) → get same k m ≡ none
  unfolding get
  get_missing k [] fresh = refl
  get_missing k ((j, v) ∷ m) fresh = elim (same j k) [
    | yes e ↦ absurd (fresh (subst (λ x. Mem x (j ∷ keys m)) e mem-cons_self))
    | no d ↦ ground (arith, get_missing k m (λ h. fresh (mem-cons_of_mem _ h)))
  ]

  -- The last value of a key wins, and it is the only one in a map.
  pub get-put_all :
      (k : K) (new m : List (K × V))
      → Nodup (keys new)
      → get same k (put_all new m) ≡ first_of (get same k new) (get same k m)
  unfolding put_all get
  get-put_all k [] m nodup = refl
  get-put_all k ((j, v) ∷ new) m nodup =
      let n = Nodup-cons.0 nodup in
      ground
        (arith, get-put_all k new (put same j v m) n.1, get-put same j k v m, get_missing k new)

  get-put_missing :
      (k j : K) (v : V) (m : List (K × V)) (o : Option V)
      → get same j m ≡ o
      → get same k (put_missing j v m o) ≡ first_of (get same k m) (ite (same j k) (some v) none)
  get-put_missing k j v m none e = ground (arith, get-put same j k v m)
  get-put_missing k j v m (some w) e = ground arith

  -- What the map holds already stays.
  pub get-fill_missing :
      (k : K) (new m : List (K × V))
      → get same k (fill_missing new m) ≡ first_of (get same k m) (get same k new)
  unfolding fill_missing get
  get-fill_missing k [] m = ground arith
  get-fill_missing k ((j, v) ∷ new) m = ground (
    arith,
    get-fill_missing k new (put_missing j v m (get same j m)),
    get-put_missing k j v m (get same j m) refl,
  )
