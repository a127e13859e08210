-- ===== src/Resource/Graph/Deterministic.antt =====
-- The groups do not depend on the order in which the iterations over the map take its entries.
use mathlib.Core.List.{Nodup, Perm, perm_ext_iff_of_Nodup, mem-cons_self}
use mathlib.Core.List.Perm
use jpl.Base.{◌≡◌, ◌↔◌, refl, ap₂, List, [], ◌∷◌, Option, none, some}
use jpl.Base.Maps.{keys}
use jpl.Base.Sorting.{HasDistinctKeys, IsSorted-eq_of_perm}
use jpl.Resource.Object.{Unstructured, Dependency, object_metadata_from_unstructured}
use jpl.Resource.Less.{less, less_objects}
use jpl.Resource.Less.Order.{less-IsStrict, less-IsConnected}
use jpl.Resource.Graph.{Edges, DependencyGraph, SortedGroups, sorted_resource_groups}
use jpl.Resource.Graph.Layers.{IsReady, IsLayer, Layers, IsComplete, IsStuck, IsOutcome}
use jpl.Resource.Graph.Sorted.{IsIteration, IsOutcome-of}

IsReady-perm :
    (es : Edges) {l r : List Unstructured}
    → Perm l r
    → (v : Unstructured) → IsReady es l v
    → IsReady es r v
IsReady-perm es p v (vertex, fresh, free) =
    (vertex, λ m. fresh (Perm.subset (Perm.symm p) v m), λ w t. Perm.subset p w (free w t))

-- Above the same placed vertices there is one layer.
IsLayer-unique :
    (es : Edges) {before before' g g' : List Unstructured}
    → HasDistinctKeys object_metadata_from_unstructured (keys es)
    → Perm before before'
    → IsLayer es before g
    → IsLayer es before' g'
    → g ≡ g'
unfolding less_objects
IsLayer-unique es {before} {before'} {g} {g'} ids p (_, sorted, distinct, members)
      (_, sorted', distinct', members') =
    IsSorted-eq_of_perm object_metadata_from_unstructured less less-IsStrict less-IsConnected
      (λ x y mx my. ids x y ((members x).0 mx).0 ((members y).0 my).0) sorted sorted'
      ((perm_ext_iff_of_Nodup distinct distinct').1 (λ v. (
        λ m. (members' v).1 (IsReady-perm es p v ((members v).0 m)),
        λ m. (members v).1 (IsReady-perm es (Perm.symm p) v ((members' v).0 m)),
      )))

-- A group is not empty, so it has a vertex that is ready.
IsLayer-IsReady :
    (es : Edges) (before g : List Unstructured)
    → IsLayer es before g
    → (v : Unstructured) × IsReady es before v
IsLayer-IsReady es before [] (some_vertex, _, _, _) = absurd (some_vertex refl)
IsLayer-IsReady es before (v ∷ g) (_, _, _, members) = (v, (members v).0 mem-cons_self)

not-IsLayer_of_complete :
    (es : Edges) (before g : List Unstructured) → IsComplete es before → ¬ IsLayer es before g
not-IsLayer_of_complete es before g complete layer =
    let (v, is_ready) = IsLayer-IsReady es before g layer in is_ready.1 (complete v is_ready.0)

not-IsLayer_of_stuck :
    (es : Edges) (before g : List Unstructured) → IsStuck es before → ¬ IsLayer es before g
not-IsLayer_of_stuck es before g stuck layer =
    let (v, is_ready) = IsLayer-IsReady es before g layer in
    let (w, t, waits) = stuck.1 v is_ready.0 is_ready.1 in waits (is_ready.2 w t)

-- What holds of the placed vertices when the loop ends.
abbrev Ends : Edges → Option (List Dependency) → List Unstructured → Type 0
Ends es none = IsComplete es
Ends es (some _) = IsStuck es

Layers-of_outcome :
    (es : Edges) (before : List Unstructured) (gs : List (List Unstructured))
    (error : Option (List Dependency))
    → IsOutcome es before gs error
    → Layers (Ends es error) es before gs
Layers-of_outcome es before gs none h = h
Layers-of_outcome es before gs (some ds) h = h

not-IsLayer_of_end :
    (es : Edges) (error : Option (List Dependency)) {l r : List Unstructured}
    (g : List Unstructured)
    → Perm l r
    → Ends es error l
    → ¬ IsLayer es r g
not-IsLayer_of_end es none {r} g p h =
    not-IsLayer_of_complete es r g (λ v m. Perm.subset p v (h v m))
not-IsLayer_of_end es (some ds) {r} g p ((v, m, fresh), blocked) = not-IsLayer_of_stuck es r g (
  (v, m, λ old. fresh (Perm.subset (Perm.symm p) v old)),
  λ u mu fu.
      let (w, t, waits) = blocked u mu (λ old. fu (Perm.subset p u old)) in
      (w, t, λ old. waits (Perm.subset (Perm.symm p) w old)),
)

none_of_none :
    (es : Edges) (error error' : Option (List Dependency)) {l r : List Unstructured}
    → Perm l r
    → Ends es error l
    → Ends es error' r
    → error ≡ none
    → error' ≡ none
none_of_none es (some ds) error' p h h' e = absurd (cc)
none_of_none es none none p h h' e = refl
none_of_none es none (some ds) p h ((v, m, fresh), _) e = absurd (fresh (Perm.subset p v (h v m)))

module _ (es : Edges) (ids : HasDistinctKeys object_metadata_from_unstructured (keys es))
    (error error' : Option (List Dependency)) where
  Layers-unique :
      (gs gs' : List (List Unstructured)) {before before' : List Unstructured}
      → Perm before before'
      → Layers (Ends es error) es before gs
      → Layers (Ends es error') es before' gs'
      → (gs ≡ gs') × ((error ≡ none) ↔ (error' ≡ none))
  Layers-unique [] [] p h h' =
      (refl, (none_of_none es error error' p h h', none_of_none es error' error (Perm.symm p) h' h))
  Layers-unique [] (g' ∷ gs') p h (layer', _) = absurd (not-IsLayer_of_end es error g' p h layer')
  Layers-unique (g ∷ gs) [] p (layer, _) h' =
      absurd (not-IsLayer_of_end es error' g (Perm.symm p) h' layer)
  Layers-unique (g ∷ gs) (g' ∷ gs') p (layer, rest) (layer', rest') =
      let same = IsLayer-unique es ids p layer layer' in
      let (tails, errors) = Layers-unique gs gs' (Perm.append (rw same Perm.rfl) p) rest rest' in
      (ap₂ ◌∷◌ same tails, errors)

-- Where the map has each key once and no two vertices have one identity, two calls that iterate over the map in different orders
-- return the same groups, and both an error or both none.
pub sorted_resource_groups-deterministic :
    (range range' : Edges → Edges) (g : DependencyGraph) {r r' : SortedGroups}
    → IsIteration range
    → IsIteration range'
    → Nodup (keys g.edges)
    → HasDistinctKeys object_metadata_from_unstructured (keys g.edges)
    → sorted_resource_groups range g ≡ some r
    → sorted_resource_groups range' g ≡ some r'
    → (r.groups ≡ r'.groups) × ((r.error ≡ none) ↔ (r'.error ≡ none))
sorted_resource_groups-deterministic range range' g {r} {r'} iteration iteration' distinct ids run
      run' =
    Layers-unique g.edges ids r.error r'.error r.groups r'.groups Perm.rfl
      (Layers-of_outcome g.edges [] r.groups r.error (IsOutcome-of range iteration g distinct run))
      (Layers-of_outcome g.edges [] r'.groups r'.error
        (IsOutcome-of range' iteration' g distinct run'))
