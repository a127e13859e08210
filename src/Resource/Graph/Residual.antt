-- ===== src/Resource/Graph/Residual.antt =====
-- The clone of the edges after some vertices are placed, in closed form: the entries of the vertices
-- that are not placed, each with the targets that are not placed.
use mathlib.Core.List.{Mem, Nodup, Nodup-cons, Nodup-nil}
use jpl.Base.{
  ◌≡◌, refl, ap, ◌∙◌, List, [], ◌∷◌, ◌++◌, Bool, true, false, not, ◌&&◌, if◌then◌else◌, arith,
  Bool-cases, inl, inr, length, ◌≤◌, ◌<◌,
}
use jpl.Base.Maps.{get, remove, keys}
use jpl.Base.Sets.{
  contains, delete, contains-append, contains_of_not_mem, mem_of_contains, contains_of_mem,
}
use jpl.Resource.Object.{Unstructured, object_discrete}
use jpl.Resource.Graph.{Edges, targets, ready, release, place, place_group}

unfoldable pub unplaced : List Unstructured → List Unstructured → List Unstructured
unplaced placed [] = []
unplaced placed (w ∷ s) =
    let rest = unplaced placed s in if contains object_discrete w placed then rest else w ∷ rest

unfoldable pub residual : List Unstructured → Edges → Edges
unfolding unplaced
residual placed [] = []
residual placed ((v, s) ∷ es) =
    let rest = residual placed es in
    if contains object_discrete v placed then rest else (v, unplaced placed s) ∷ rest

delete-unplaced :
    (r : Unstructured) (placed s : List Unstructured)
    → delete object_discrete r (unplaced placed s) ≡ unplaced (r ∷ placed) s
unfolding delete unplaced contains
delete-unplaced r placed [] = refl
delete-unplaced r placed (w ∷ s) = ground (arith, delete-unplaced r placed s)

place-residual :
    (r : Unstructured) (placed : List Unstructured) (es : Edges)
    → place r (residual placed es) ≡ residual (r ∷ placed) es
unfolding place release remove residual contains
place-residual r placed [] = refl
place-residual r placed ((v, s) ∷ es) =
    ground (arith, place-residual r placed es, delete-unplaced r placed s)

-- Only the elements of `placed` matter.
unplaced-ext :
    (p q s : List Unstructured)
    → ((v : Unstructured) → contains object_discrete v p ≡ contains object_discrete v q)
    → unplaced p s ≡ unplaced q s
unfolding unplaced
unplaced-ext p q [] h = refl
unplaced-ext p q (w ∷ s) h = ground (arith, h w, unplaced-ext p q s h)

pub residual-ext :
    (p q : List Unstructured) (es : Edges)
    → ((v : Unstructured) → contains object_discrete v p ≡ contains object_discrete v q)
    → residual p es ≡ residual q es
unfolding residual
residual-ext p q [] h = refl
residual-ext p q ((v, s) ∷ es) h = ground (arith, h v, unplaced-ext p q s h, residual-ext p q es h)

unfoldable pub all_placed : List Unstructured → List Unstructured → Bool
all_placed placed [] = true
all_placed placed (w ∷ s) = contains object_discrete w placed && all_placed placed s

contains-ready-residual_le :
    (placed : List Unstructured) (es : Edges) (v : Unstructured)
    → contains object_discrete v (ready (residual placed es)) ≡ true
    → contains object_discrete v (keys es) ≡ true
unfolding ready residual contains
contains-ready-residual_le placed [] v h = absurd (cc)
contains-ready-residual_le placed ((u, s) ∷ es) v h =
    ground (arith, contains-ready-residual_le placed es v)

unplaced-eq-nil :
    (placed s : List Unstructured) → all_placed placed s ≡ true → unplaced placed s ≡ []
unfolding all_placed unplaced
unplaced-eq-nil placed [] h = refl
unplaced-eq-nil placed (w ∷ s) h = ground (arith, unplaced-eq-nil placed s)

unplaced-ne-nil :
    (placed s : List Unstructured)
    → all_placed placed s ≡ false
    → (w : Unstructured) × (rest : List Unstructured) × (unplaced placed s ≡ w ∷ rest)
unfolding all_placed unplaced
unplaced-ne-nil placed [] h = absurd (cc)
unplaced-ne-nil placed (w ∷ s) h = elim (Bool-cases (contains object_discrete w placed)) [
  | inl e ↦ rw (e, unplaced) (unplaced-ne-nil placed s (ground arith))
  | inr e ↦ (w, unplaced placed s, ground arith)
]

contains-middle :
    (v r : Unstructured) (rs placed : List Unstructured)
    → contains object_discrete v (rs ++ r ∷ placed) ≡ contains object_discrete v (r ∷ rs ++ placed)
unfolding contains
contains-middle v r rs placed = ground (
  arith,
  contains-append object_discrete v rs (r ∷ placed),
  contains-append object_discrete v rs placed,
)

pub place_group-residual :
    (group placed : List Unstructured) (es : Edges) {edges : Edges} (graph : Edges)
    → edges ≡ residual placed es
    → (place_group group edges graph).0 ≡ residual (group ++ placed) es
unfolding place_group
place_group-residual [] placed es graph e = e
place_group-residual (r ∷ rs) placed es graph e =
    place_group-residual rs (r ∷ placed) es _ (ap (place r) e ∙ place-residual r placed es)
    ∙ residual-ext _ _ es (λ v. contains-middle v r rs placed)

-- Whether a vertex can be placed once `placed` are.
unfoldable pub is_ready : Edges → List Unstructured → Unstructured → Bool
unfolding targets all_placed
is_ready es placed v =
    contains object_discrete v (keys es)
    && not (contains object_discrete v placed)
    && all_placed placed (targets v es)

ready_head :
    (placed s : List Unstructured) (u : Unstructured) (es : Edges)
    → ready ((u, unplaced placed s) ∷ es) ≡ (if all_placed placed s then u ∷ ready es else ready es)
ready_head placed s u es = elim (Bool-cases (all_placed placed s)) [
  | inl e ↦ rw (e, unplaced-eq-nil placed s e) (unfold ready in refl)
  | inr e ↦ let (w, rest, q) = unplaced-ne-nil placed s e in rw (e, q) (unfold ready in refl)
]

-- The vertices without remaining edges are those that are ready.
pub contains-ready-residual :
    (placed : List Unstructured) (es : Edges) (v : Unstructured)
    → Nodup (keys es)
    → contains object_discrete v (ready (residual placed es)) ≡ is_ready es placed v
unfolding is_ready residual contains get targets ready
contains-ready-residual placed [] v distinct = refl
contains-ready-residual placed ((u, s) ∷ es) v distinct =
    let (fresh, distinct') = Nodup-cons.0 distinct in
    ground (
      arith,
      ready_head placed s u (residual placed es),
      contains-ready-residual placed es v distinct',
      contains-ready-residual_le placed es v,
      contains_of_not_mem object_discrete u (keys es) fresh,
    )

pub residual-eq-nil :
    (placed : List Unstructured) (es : Edges) (v : Unstructured)
    → residual placed es ≡ []
    → contains object_discrete v (keys es) ≡ true
    → contains object_discrete v placed ≡ true
unfolding residual contains
residual-eq-nil placed [] v e h = absurd (cc)
residual-eq-nil placed ((u, s) ∷ es) v e h = ground (arith, residual-eq-nil placed es v)

-- Placing a vertex that waits shortens the clone.
pub length-residual-append :
    (group placed : List Unstructured) (es : Edges)
    → length (residual (group ++ placed) es) ≤ length (residual placed es)
unfolding residual
length-residual-append group placed [] = omega arith
length-residual-append group placed ((u, s) ∷ es) =
    ground (
      arith,
      contains-append object_discrete u group placed,
      length-residual-append group placed es,
    )

pub length-residual-lt :
    (group placed : List Unstructured) (es : Edges) (v : Unstructured)
    → contains object_discrete v (keys es) ≡ true
    → contains object_discrete v placed ≡ false
    → contains object_discrete v group ≡ true
    → length (residual (group ++ placed) es) < length (residual placed es)
unfolding residual contains
length-residual-lt group placed [] v h fresh new = absurd (cc)
length-residual-lt group placed ((u, s) ∷ es) v h fresh new = ground (
  arith,
  contains-append object_discrete u group placed,
  length-residual-append group placed es,
  length-residual-lt group placed es v,
)

-- The first entry of the clone is a vertex that is not placed.
pub residual-head :
    (placed : List Unstructured) (es : Edges) {e : Unstructured × List Unstructured} {rest : Edges}
    → residual placed es ≡ e ∷ rest
    → (contains object_discrete e.0 (keys es) ≡ true)
      × (contains object_discrete e.0 placed ≡ false)
unfolding residual contains
residual-head placed [] q = absurd (cc)
residual-head placed ((u, s) ∷ es) {e} {rest} q =
    elim (Bool-cases (contains object_discrete u placed)) [
      | inl p ↦
          let (known, fresh) = residual-head placed es {e = e} {rest = rest} (ground arith) in
          (ground arith, fresh)
      | inr p ↦ (ground arith, ground arith)
    ]

-- A vertex that is not ready has a target that is not placed.
pub all_placed-false :
    (placed s : List Unstructured)
    → all_placed placed s ≡ false
    → (w : Unstructured) × (contains object_discrete w s ≡ true)
      × (contains object_discrete w placed ≡ false)
unfolding all_placed contains
all_placed-false placed [] h = absurd (cc)
all_placed-false placed (w ∷ s) h = elim (Bool-cases (contains object_discrete w placed)) [
  | inl p ↦
      let (x, listed, fresh) = all_placed-false placed s (ground arith) in (x, ground arith, fresh)
  | inr p ↦ (w, ground arith, p)
]

pub ready-residual-Nodup :
    (placed : List Unstructured) (es : Edges) → Nodup (keys es) → Nodup (ready (residual placed es))
unfolding residual
ready-residual-Nodup placed [] distinct = unfold ready in Nodup-nil
ready-residual-Nodup placed ((u, s) ∷ es) distinct =
    let (fresh, distinct') = Nodup-cons.0 distinct in
    let tails = ready-residual-Nodup placed es distinct' in
    let absent : ¬ Mem u (ready (residual placed es)) = λ m. fresh (
      mem_of_contains object_discrete u (keys es)
        (contains-ready-residual_le placed es u (contains_of_mem object_discrete u _ m))) in
    elim (Bool-cases (contains object_discrete u placed)) [
      | inl p ↦ rw p tails
      | inr p ↦
          rw (p, ready_head placed s u (residual placed es))
            (elim (Bool-cases (all_placed placed s)) [
              | inl q ↦ rw q (Nodup-cons.1 (absent, tails))
              | inr q ↦ rw q tails
            ])
    ]

unplaced_none : (s : List Unstructured) → unplaced [] s ≡ s
unfolding unplaced contains
unplaced_none [] = refl
unplaced_none (w ∷ s) = ap (◌∷◌ w) (unplaced_none s)

pub residual_none : (es : Edges) → residual [] es ≡ es
unfolding residual contains
residual_none [] = refl
residual_none ((v, s) ∷ es) = rw (unplaced_none s, residual_none es)
