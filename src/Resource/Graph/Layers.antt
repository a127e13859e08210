-- ===== src/Resource/Graph/Layers.antt =====
-- What SortedResourceGroups promises of its groups, and the loop's proof of it.
use mathlib.Core.List.{Mem, Nodup, Perm, Subset, nil-subset, cons-subset, filter}
use mathlib.Core.List.Perm
use jpl.Base.{
  ◌≡◌, ◌≢◌, refl, ap, ◌↔◌, List, [], ◌∷◌, ◌++◌, map, true, false, arith, Option, none, some,
  dec_nil,
}
use jpl.Base.Maps.{keys}
use jpl.Base.Sets.{contains_of_mem, mem_of_contains, not_mem_of_contains, contains_of_not_mem}
use jpl.Base.Sorting.{IsSorted}
use jpl.Resource.Object.{Unstructured, Dependency, object_discrete}
use jpl.Resource.Less.{less_objects}
use jpl.Resource.Graph.{Edges, targets, ready}
use jpl.Resource.Graph.Residual.{all_placed, is_ready}

-- A vertex that is not placed, and depends on placed vertices only.
abbrev pub IsReady : Edges → List Unstructured → Unstructured → Type 0
IsReady es before v = Mem v (keys es) × (¬ Mem v before) × Subset (targets v es) before

-- A group: all the vertices that are ready, each once, in the order of resources.
abbrev pub IsLayer : Edges → List Unstructured → List Unstructured → Type 0
IsLayer es before group =
    (group ≢ [])
    × IsSorted less_objects group
    × Nodup group
    × ((v : Unstructured) → Mem v group ↔ IsReady es before v)

-- Each group is a layer above those before it, and `End` holds of all that are placed.
abbrev pub Layers :
    (List Unstructured → Type 0) → Edges → List Unstructured → List (List Unstructured) → Type 0
Layers End es before [] = End before
Layers End es before (g ∷ gs) = IsLayer es before g × Layers End es (g ++ before) gs

-- Every vertex is placed.
abbrev pub IsComplete : Edges → List Unstructured → Type 0
IsComplete es placed = Subset (keys es) placed

-- Some vertex is not placed, and each such vertex depends on another one.
abbrev pub IsStuck : Edges → List Unstructured → Type 0
IsStuck es placed =
    ((v : Unstructured) × Mem v (keys es) × (¬ Mem v placed))
    × ((v : Unstructured)
        → Mem v (keys es)
        → ¬ Mem v placed
        → (w : Unstructured) × Mem w (targets v es) × (¬ Mem w placed))

abbrev pub IsOutcome :
    Edges → List Unstructured → List (List Unstructured) → Option (List Dependency) → Type 0
IsOutcome es before groups none = Layers (IsComplete es) es before groups
IsOutcome es before groups (some _) = Layers (IsStuck es) es before groups

pub all_placed_sound : (placed s : List Unstructured) → all_placed placed s ≡ true → Subset s placed
unfolding all_placed
all_placed_sound placed [] h = nil-subset placed
all_placed_sound placed (w ∷ s) h = cons-subset.1 (
  mem_of_contains object_discrete w placed (ground arith),
  all_placed_sound placed s (ground arith),
)

all_placed_complete : (placed s : List Unstructured) → Subset s placed → all_placed placed s ≡ true
unfolding all_placed
all_placed_complete placed [] h = refl
all_placed_complete placed (w ∷ s) h =
    let (first, later) = cons-subset.0 h in
    ground
      (arith, contains_of_mem object_discrete w placed first, all_placed_complete placed s later)

pub is_ready_sound :
    (es : Edges) (placed : List Unstructured) (v : Unstructured)
    → is_ready es placed v ≡ true
    → IsReady es placed v
unfolding is_ready
is_ready_sound es placed v h = (
  mem_of_contains object_discrete v (keys es) (ground arith),
  not_mem_of_contains object_discrete v placed (ground arith),
  all_placed_sound placed (targets v es) (ground arith),
)

pub is_ready_complete :
    (es : Edges) (placed : List Unstructured) (v : Unstructured)
    → IsReady es placed v
    → is_ready es placed v ≡ true
unfolding is_ready
is_ready_complete es placed v (vertex, fresh, free) = ground (
  arith,
  contains_of_mem object_discrete v (keys es) vertex,
  contains_of_not_mem object_discrete v placed fresh,
  all_placed_complete placed (targets v es) free,
)

-- What keeps a waiting vertex from being ready is a target.
pub all_placed_of_not_ready :
    (es : Edges) (placed : List Unstructured) (v : Unstructured)
    → is_ready es placed v ≡ false
    → Mem v (keys es)
    → ¬ Mem v placed
    → all_placed placed (targets v es) ≡ false
unfolding is_ready
all_placed_of_not_ready es placed v h m fresh = ground (
  arith,
  contains_of_mem object_discrete v (keys es) m,
  contains_of_not_mem object_discrete v placed fresh,
)

pub IsOutcome-cons :
    (es : Edges) (before group : List Unstructured) (gs : List (List Unstructured))
    (error : Option (List Dependency))
    → IsLayer es before group
    → IsOutcome es (group ++ before) gs error
    → IsOutcome es before (group ∷ gs) error
IsOutcome-cons es before group gs none layer rest = (layer, rest)
IsOutcome-cons es before group gs (some ds) layer rest = (layer, rest)

ready-filter :
    (es : Edges)
    → ready es
      ≡ map
          (λ (e : Unstructured × List Unstructured). e.0)
          (filter (λ (e : Unstructured × List Unstructured). dec_nil e.1) es)
unfolding ready
ready-filter [] = refl
ready-filter ((v, []) ∷ es) = ap (◌∷◌ v) (ready-filter es)
ready-filter ((v, w ∷ s) ∷ es) = ready-filter es

-- The order of the entries does not change which vertices are ready.
pub ready-perm : {l r : Edges} → Perm l r → Perm (ready l) (ready r)
ready-perm {l} {r} p =
    rw (ready-filter l, ready-filter r)
      (Perm.map (λ (e : Unstructured × List Unstructured). e.0)
        (Perm.filter (λ (e : Unstructured × List Unstructured). dec_nil e.1) p))
