-- ===== src/Resource/Less/Table.antt =====
-- The table of well-known kinds: where its entries stand in the order of resources.
use Prim.Native.Nat.{◌≤◌}
use mathlib.Core.Logic.Or
use mathlib.Core.List.{Mem, mem-cons, not-mem-nil, mem-cons_self, mem-cons_of_mem}
use mathlib.Core.HLevel.{⊥_prop}
use jpl.Base.{
  ℕ, suc, ◌+◌, ◌<◌, ◌≡◌, ◌≢◌, refl, sym, subst, ◌∙◌, true, List, [], ◌∷◌, length, Option, some,
  none, arith, if_pos, if_neg, ◌⊎◌, inl, inr,
}
use jpl.Base.Int.{ℤ, pos, negsuc, sub_ℕ, ltb_ℤ}
use jpl.Base.Maps.{get, put, get-put}
use jpl.Resource.Object.{GroupKind, ObjectMetadata, group_kind_discrete, metadata_group_kind}
use jpl.Resource.Less.{
  order_list, fill, default_group_kind_sort_map, sort_index, or_zero, less_gk, less,
}

-- `get` on the filled map, where the kind is not among those still to come.
get-fill_of_not_mem :
    (total i : ℕ) (ns : List GroupKind) (m : List (GroupKind × ℤ)) (gk : GroupKind)
    → ¬ Mem gk ns
    → get group_kind_discrete gk (fill total i ns m) ≡ get group_kind_discrete gk m
unfolding fill
get-fill_of_not_mem total i [] m gk absent = refl
get-fill_of_not_mem total i (n ∷ ns) m gk absent =
    get-fill_of_not_mem total (suc i) ns _ gk (λ later. absent (mem-cons_of_mem n later))
    ∙ ground (
      arith,
      get-put group_kind_discrete n gk (sub_ℕ i total) m,
      λ (e : n ≡ gk). absent (rw e mem-cons_self),
    )

abbrev IsNegative : Option ℤ → Type 0
IsNegative none = ⊥
IsNegative (some (pos n)) = ⊥
IsNegative (some (negsuc n)) = Unit

IsNegative-prop : (o : Option ℤ) → IsProp (IsNegative o)
IsNegative-prop none = ⊥_prop
IsNegative-prop (some (pos n)) = ⊥_prop
IsNegative-prop (some (negsuc n)) = hlevel

sub_ℕ-IsNegative : (i total : ℕ) → i < total → IsNegative (some (sub_ℕ i total))
sub_ℕ-IsNegative i total h = ground arith

put-IsNegative :
    (i total : ℕ) (n gk : GroupKind) (m : List (GroupKind × ℤ))
    → i < total
    → (n ≡ gk) ⊎ IsNegative (get group_kind_discrete gk m)
    → IsNegative (get group_kind_discrete gk (put group_kind_discrete n (sub_ℕ i total) m))
put-IsNegative i total n gk m h c = rw get-put (elim (group_kind_discrete n gk) [
  | yes p ↦ rw (if_pos _ p) (sub_ℕ-IsNegative i total h)
  | no p ↦ rw (if_neg _ p) (elim c [ inl e ↦ absurd (p e) | inr old ↦ old ])
])

fill-IsNegative :
    (total i : ℕ) (ns : List GroupKind) (m : List (GroupKind × ℤ)) (gk : GroupKind)
    → i + length ns ≤ total
    → IsNegative (get group_kind_discrete gk m)
    → IsNegative (get group_kind_discrete gk (fill total i ns m))
unfolding fill
fill-IsNegative total i [] m gk fits h = h
fill-IsNegative total i (n ∷ ns) m gk fits h =
    fill-IsNegative total (suc i) ns _ gk (omega arith)
      (put-IsNegative i total n gk m (omega arith) (inr h))

fill-IsNegative_of_mem :
    (total i : ℕ) (ns : List GroupKind) (m : List (GroupKind × ℤ)) (gk : GroupKind)
    → i + length ns ≤ total
    → Mem gk ns
    → IsNegative (get group_kind_discrete gk (fill total i ns m))
unfolding fill
fill-IsNegative_of_mem total i [] m gk fits h = absurd (not-mem-nil h)
fill-IsNegative_of_mem total i (n ∷ ns) m gk fits h =
    Or.elim (IsNegative-prop _) (mem-cons.0 h)
      (λ e.
        fill-IsNegative total (suc i) ns _ gk (omega arith)
          (put-IsNegative i total n gk m (omega arith) (inl (sym e))))
      (fill-IsNegative_of_mem total (suc i) ns _ gk (omega arith))

-- The index of a kind of the table is below that of a kind that is not in it.
sort_index-lt :
    (i j : GroupKind)
    → Mem i order_list
    → ¬ Mem j order_list
    → ltb_ℤ (sort_index i) (sort_index j) ≡ true
unfolding sort_index default_group_kind_sort_map or_zero get
sort_index-lt i j listed absent =
    rw (get-fill_of_not_mem (length order_list) 0 order_list [] j absent) (
      negative _
        (fill-IsNegative_of_mem (length order_list) 0 order_list [] i (omega arith) listed))
  where
    negative : (o : Option ℤ) → IsNegative o → ltb_ℤ (or_zero o) (pos 0) ≡ true
    negative none h = absurd h
    negative (some (pos n)) h = absurd h
    negative (some (negsuc n)) h = ground arith

less_gk_of_index :
    (i j : GroupKind) → ltb_ℤ (sort_index i) (sort_index j) ≡ true → less_gk i j ≡ true
unfolding less_gk
less_gk_of_index i j h = ground arith

less_of_less_gk :
    (a b : ObjectMetadata)
    → less_gk (metadata_group_kind a) (metadata_group_kind b) ≡ true
    → metadata_group_kind a ≢ metadata_group_kind b
    → less a b ≡ true
unfolding less
less_of_less_gk a b h differ = if_neg (group_kind_discrete _ _) differ _ _ ∙ h

-- A resource of a kind of the table comes before every resource of a kind that is not in it,
-- whatever their namespaces and names.
pub less_of_mem :
    (a b : ObjectMetadata)
    → Mem (metadata_group_kind a) order_list
    → ¬ Mem (metadata_group_kind b) order_list
    → less a b ≡ true
less_of_mem a b listed absent =
    less_of_less_gk a b
      (less_gk_of_index (metadata_group_kind a) (metadata_group_kind b)
        (sort_index-lt (metadata_group_kind a) (metadata_group_kind b) listed absent))
      (λ e. absent (subst (λ gk. Mem gk order_list) e listed))
