-- ===== src/Resource/Build/WellFormed.antt =====
-- addVertex and addEdge keep a graph well formed: each vertex stands once, and each edge leads to a
-- vertex.
use mathlib.Core.List.{Nodup, Nodup-nil}
use jpl.Base.{List, [], ◌∷◌, some, true, if◌then◌else◌, ◌≡◌, ◌||◌, arith, Option-cases, inl, inr}
use jpl.Base.Maps.{get, put, keys}
use jpl.Base.Keys.{keys-put}
use jpl.Base.Sets.{insert-Nodup, is_same, contains, insert, contains-insert}
use jpl.Resource.Object.{Unstructured, object_discrete}
use jpl.Resource.Graph.{Edges, targets, add_vertex, add_edge}

targets-put :
    (k v : Unstructured) (s : List Unstructured) (es : Edges)
    → targets v (put object_discrete k s es)
      ≡ (if is_same object_discrete k v then s else targets v es)
unfolding targets put get
targets-put k v s [] = ground arith
targets-put k v s ((w, t) ∷ es) = ground (arith, targets-put k v s es)

-- Each vertex stands once, and each edge leads to a vertex.
pub record IsGood (es : Edges) : Type 0 where
  pub distinct : Nodup (keys es)
  pub closed :
      (v w : Unstructured)
      → contains object_discrete w (targets v es) ≡ true
      → contains object_discrete w (keys es) ≡ true

pub empty-IsGood : IsGood []
unfolding targets get contains
empty-IsGood = record { distinct = Nodup-nil; closed = λ v w m. absurd (cc) }

-- A set of vertices, put at a vertex or a new one.
pub put-IsGood :
    (k : Unstructured) (s : List Unstructured) (es : Edges)
    → IsGood es
    → ((w : Unstructured)
        → contains object_discrete w s ≡ true
        → contains object_discrete w (keys es) ≡ true)
    → IsGood (put object_discrete k s es)
put-IsGood k s es h inside = record {
  distinct =
      rw (keys-put object_discrete k s es) (insert-Nodup object_discrete k (keys es) h.distinct);
  closed = λ v w m. ground (
    arith,
    targets-put k v s es,
    keys-put object_discrete k s es,
    contains-insert object_discrete k w (keys es),
    inside w,
    h.closed v w,
  );
}

contains_of_get :
    (v : Unstructured) (s : List Unstructured) (es : Edges)
    → get object_discrete v es ≡ some s
    → contains object_discrete v (keys es) ≡ true
unfolding get contains
contains_of_get v s [] e = absurd (cc)
contains_of_get v s ((w, t) ∷ es) e = ground (arith, contains_of_get v s es)

pub add_vertex-IsGood : (v : Unstructured) (es : Edges) → IsGood es → IsGood (add_vertex v es)
unfolding add_vertex contains
add_vertex-IsGood v es h = elim (Option-cases (get object_discrete v es)) [
  | inl e ↦ rw (e, add_vertex) (put-IsGood v [] es h (λ w m. absurd (cc)))
  | inr (s, e) ↦ rw (e, add_vertex) h
]

-- `addVertex` adds its vertex and keeps the others.
pub contains-add_vertex :
    (v w : Unstructured) (es : Edges)
    → contains object_discrete w (keys (add_vertex v es))
      ≡ (contains object_discrete w (keys es) || contains object_discrete w (v ∷ []))
unfolding add_vertex contains
contains-add_vertex v w es = elim (Option-cases (get object_discrete v es)) [
  | inl e ↦
      rw (e, add_vertex) ground
        (arith, keys-put object_discrete v [] es, contains-insert object_discrete v w (keys es))
  | inr (s, e) ↦ rw (e, add_vertex) ground (arith, contains_of_get v s es e)
]

pub add_edge-IsGood : (v w : Unstructured) (es : Edges) → IsGood es → IsGood (add_edge v w es)
unfolding add_edge
add_edge-IsGood v w es h =
    let both = add_vertex w (add_vertex v es) in
    let good = add_vertex-IsGood w (add_vertex v es) (add_vertex-IsGood v es h) in
    put-IsGood v (insert object_discrete w (targets v both)) both good (λ u m. ground (
      arith,
      contains-insert object_discrete w u (targets v both),
      contains-add_vertex w u (add_vertex v es),
      good.closed v u,
    ))
