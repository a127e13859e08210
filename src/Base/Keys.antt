-- ===== src/Base/Keys.antt =====
-- The keys of a map are a set, to which `put` adds its key.
use mathlib.Core.List.{List, [], ◌∷◌, Nodup}
use mathlib.Core.Path.{◌≡◌, refl}
use native.Mathlib.Omega.{arith}
use jpl.Base.Maps.{keys, put}
use jpl.Base.Sets.{contains, insert, insert-Nodup}

module _ {ℓ} {K V : Type ℓ} (same : Discrete K) where
  pub keys-put : (k : K) (v : V) (m : List (K × V)) → keys (put same k v m) ≡ insert same k (keys m)
  unfolding put insert contains
  keys-put k v [] = refl
  keys-put k v ((j, w) ∷ m) = ground (arith, keys-put k v m)

  pub put-Nodup :
      (k : K) (v : V) (m : List (K × V)) → Nodup (keys m) → Nodup (keys (put same k v m))
  put-Nodup k v m h = rw (keys-put k v m) (insert-Nodup same k (keys m) h)
