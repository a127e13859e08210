-- ===== src/Resource/Graph/Topology.antt =====
-- What the layers of SortedResourceGroups mean: every vertex once, dependencies first, and an error
-- exactly when the dependencies have a cycle.
use mathlib.Core.List.{
  Mem, Nodup, Perm, flatten, Nodup-append, Nodup-nil, mem-append, mem-append_left, mem-append_right,
  not-mem-nil, Mem-prop, perm_ext_iff_of_Nodup,
}
use mathlib.Core.HLevel.{⊥_prop}
use mathlib.Core.Logic.Or
use jpl.Base.{
  ℕ, zero, suc, ◌≤◌, ◌<◌, List, [], ◌∷◌, ◌++◌, arith, Bool-cases, inl, inr, length, if◌then◌else◌,
}
use jpl.Base.Maps.{keys}
use jpl.Base.Sets.{contains, mem_of_contains, not_mem_of_contains}
use jpl.Resource.Object.{Unstructured, object_discrete}
use jpl.Resource.Graph.{Edges, targets}
use jpl.Resource.Graph.Layers.{Layers, IsComplete, IsStuck}

-- The number of groups before the first one that holds the vertex.
unfoldable pub layer_of : Unstructured → List (List Unstructured) → ℕ
layer_of v [] = 0
layer_of v (g ∷ gs) = if contains object_discrete v g then 0 else suc (layer_of v gs)

layer_of_lt :
    (v : Unstructured) (gs : List (List Unstructured))
    → Mem v (flatten gs)
    → layer_of v gs < length gs
unfolding flatten layer_of
layer_of_lt v [] m = absurd (not-mem-nil m)
layer_of_lt v (g ∷ gs) m = elim (Bool-cases (contains object_discrete v g)) [
  | inl e ↦ ground arith
  | inr e ↦ ground (
    arith,
    layer_of_lt v gs (
        Or.elim Mem-prop (mem-append.0 m)
          (λ now. absurd (not_mem_of_contains object_discrete v g e now)) (λ l. l)),
  )
]

module _ (es : Edges) where
  -- What is placed is a vertex, and was not placed before.
  Layers-fresh :
      (End : List Unstructured → Type 0) (before : List Unstructured)
      (gs : List (List Unstructured))
      → Layers End es before gs
      → (v : Unstructured) → Mem v (flatten gs)
      → Mem v (keys es) × (¬ Mem v before)
  unfolding flatten
  Layers-fresh End before [] h v m = absurd (not-mem-nil m)
  Layers-fresh End before (g ∷ gs) (layer, rest) v m =
      Or.elim (hlevel Mem-prop) (mem-append.0 m)
        (λ now. let (vertex, fresh, _) = (layer.3 v).0 now in (vertex, fresh))
        (λ later.
          let (vertex, fresh) = Layers-fresh End (g ++ before) gs rest v later in
          (vertex, λ old. fresh (mem-append_right g old)))

  Layers-Nodup :
      (End : List Unstructured → Type 0) (before : List Unstructured)
      (gs : List (List Unstructured))
      → Layers End es before gs
      → Nodup (flatten gs)
  unfolding flatten
  Layers-Nodup End before [] h = Nodup-nil
  Layers-Nodup End before (g ∷ gs) (layer, rest) = Nodup-append.1 (
    layer.2,
    Layers-Nodup End (g ++ before) gs rest,
    λ a now later. (Layers-fresh End (g ++ before) gs rest a later).1 (mem-append_left before now),
  )

  -- At the end every vertex is in a group, or was placed before.
  pub Layers-total :
      (before : List Unstructured) (gs : List (List Unstructured))
      → Layers (IsComplete es) es before gs
      → (v : Unstructured) → Mem v (keys es)
      → ¬ Mem v before
      → Mem v (flatten gs)
  unfolding flatten
  Layers-total before [] h v m fresh = absurd (fresh (h v m))
  Layers-total before (g ∷ gs) (layer, rest) v m fresh =
      elim (Bool-cases (contains object_discrete v g)) [
        | inl e ↦ mem-append_left (flatten gs) (mem_of_contains object_discrete v g e)
        | inr e ↦ mem-append_right g (
            Layers-total (g ++ before) gs rest v m (λ old.
              Or.elim ⊥_prop (mem-append.0 old) (not_mem_of_contains object_discrete v g e) fresh))
      ]

  pub Layers-perm :
      (gs : List (List Unstructured))
      → Nodup (keys es)
      → Layers (IsComplete es) es [] gs
      → Perm (flatten gs) (keys es)
  Layers-perm gs distinct h =
      (perm_ext_iff_of_Nodup (Layers-Nodup _ [] gs h) distinct).1
        (λ v. (λ m. (Layers-fresh _ [] gs h v m).0, λ m. Layers-total [] gs h v m not-mem-nil))

  -- A target of a vertex is placed before it, or in a group before the group of the vertex.
  pub Layers-order :
      (End : List Unstructured → Type 0) (before : List Unstructured)
      (gs : List (List Unstructured)) (v w : Unstructured)
      → Layers End es before gs
      → Mem v (flatten gs)
      → Mem w (targets v es)
      → ¬ Mem w before
      → (layer_of w gs < layer_of v gs) × (layer_of v gs < length gs)
  unfolding flatten layer_of
  Layers-order End before [] v w h m t fresh = absurd (not-mem-nil m)
  Layers-order End before (g ∷ gs) v w (layer, rest) m t fresh =
      elim (Bool-cases (contains object_discrete v g)) [
        | inl e ↦
            let (_, _, free) = (layer.3 v).0 (mem_of_contains object_discrete v g e) in
            absurd (fresh (free w t))
        | inr e ↦
            let later : Mem v (flatten gs) =
              Or.elim Mem-prop (mem-append.0 m)
                (λ now. absurd (not_mem_of_contains object_discrete v g e now)) (λ l. l) in
            elim (Bool-cases (contains object_discrete w g)) [
              | inl f ↦ ground (arith, layer_of_lt v gs later)
              | inr f ↦ ground (
                arith,
                Layers-order End (g ++ before) gs v w rest later t (λ old.
                    Or.elim ⊥_prop (mem-append.0 old) (not_mem_of_contains object_discrete w g f)
                      fresh),
              )
            ]
      ]

-- Every target is a vertex.
abbrev pub IsClosed : Edges → Type 0
IsClosed es = (v w : Unstructured) → Mem w (targets v es) → Mem w (keys es)

-- `rank` falls along every edge, so there is no cycle.
abbrev pub IsRanked : (Unstructured → ℕ) → Edges → Type 0
IsRanked rank es = (v w : Unstructured) → Mem w (targets v es) → rank w < rank v

-- A vertex of least rank among those that wait would be ready.
IsStuck-descent :
    (es : Edges) (rank : Unstructured → ℕ) (placed : List Unstructured)
    → IsClosed es
    → IsRanked rank es
    → IsStuck es placed
    → (n : ℕ) (v : Unstructured) → Mem v (keys es)
    → ¬ Mem v placed
    → n ≤ rank v
IsStuck-descent es rank placed closed ranked stuck zero v m fresh = omega arith
IsStuck-descent es rank placed closed ranked stuck (suc n) v m fresh =
    let (w, t, waits) = stuck.1 v m fresh in
    omega (
      arith,
      ranked v w t,
      IsStuck-descent es rank placed closed ranked stuck n w (closed v w t) waits,
    )

pub not-IsStuck :
    (es : Edges) (rank : Unstructured → ℕ) (placed : List Unstructured)
    → IsClosed es
    → IsRanked rank es
    → ¬ IsStuck es placed
not-IsStuck es rank placed closed ranked stuck =
    let (v, m, fresh) = stuck.0 in
    absurd
      (omega (arith, IsStuck-descent es rank placed closed ranked stuck (suc (rank v)) v m fresh))

pub Layers-end :
    (End : List Unstructured → Type 0) (es : Edges) (before : List Unstructured)
    (gs : List (List Unstructured))
    → Layers End es before gs
    → (placed : List Unstructured) × End placed
Layers-end End es before [] h = (before, h)
Layers-end End es before (g ∷ gs) (_, rest) = Layers-end End es (g ++ before) gs rest
