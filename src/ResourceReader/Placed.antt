-- ===== src/ResourceReader/Placed.antt =====
-- In which namespaces the objects are after they have been read.
use jpl.Base.{
  Str, str_discrete, List, [], ◌∷◌, Option, none, some, Bool, true, false, not, ◌&&◌, ◌||◌, ◌≡◌,
  ◌∙◌, refl, sym, ap, arith, subst,
}
use jpl.Base.Sets.{is_same}
use jpl.Remote.{Error, Outcome, ok, err}
use jpl.Resource.Object.{Unstructured, find_crds}
use jpl.Resource.Scope.{RestScope, rest_scope_root, rest_scope_namespace, scope}
use jpl.ResourceReader.{
  ReaderConfigs, is_empty, Placing, namespaced, is_refused, clustered, place_object, and_next,
  place_each, unless_off, set_namespace,
}

module _ (quoted : Str → Str) (configs : ReaderConfigs) where
  -- Whether an object of the scope may come with the namespace.
  abbrev pub allowed : RestScope → Str → Bool
  allowed rest_scope_root own = is_empty own
  allowed rest_scope_namespace own =
      not configs.enforce_namespace || is_empty own || is_same str_discrete own configs.namespace

  -- The namespace that an object of the scope leaves with: its own, if it has one.
  abbrev pub settled : RestScope → Str → Str
  settled rest_scope_root own = []
  settled rest_scope_namespace [] = configs.namespace
  settled rest_scope_namespace (c ∷ own) = c ∷ own

  -- The object came with a namespace that is allowed and leaves with the one that is settled, and it is
  -- the same but for that.
  pub record IsPlaced (crds : List Unstructured) (obj obj' : Unstructured) : Type 0 where
    pub rest_scope : RestScope
    pub found : scope configs.mapper obj crds ≡ ok rest_scope
    pub came : allowed rest_scope obj.namespace ≡ true
    pub left : obj' ≡ record obj { namespace = settled rest_scope obj.namespace }

  pub data ArePlaced (crds : List Unstructured)
      : List Unstructured → List Unstructured → Type 0 where
    no_objects : ArePlaced crds [] []
    one_more :
        {obj obj' : Unstructured} {objs objs' : List Unstructured}
        → IsPlaced crds obj obj'
        → ArePlaced crds objs objs'
        → ArePlaced crds (obj ∷ objs) (obj' ∷ objs')

  abbrev is_off : Bool
  is_off = not configs.enforce_namespace && is_empty configs.namespace

  -- What the loop's body makes of an object that it does not refuse.
  record IsRight (s : RestScope) (obj : Unstructured) (p : Placing) : Type 0 where
    fine : allowed s obj.namespace ≡ true
    same : p.1 ≡ record obj { namespace = settled s obj.namespace }

  with_namespace :
      (obj : Unstructured) (namespace : Str)
      → obj.namespace ≡ namespace
      → obj ≡ record obj { namespace = namespace }
  with_namespace obj namespace e = ap (λ n. record obj { namespace = n }) e

  settled_empty : (own : Str) → is_empty own ≡ true → own ≡ []
  settled_empty [] e = refl
  settled_empty (c ∷ own) e = absurd (cc e)

  settled_own : (own : Str) → is_empty own ≡ false → settled rest_scope_namespace own ≡ own
  settled_own [] e = absurd (cc e)
  settled_own (c ∷ own) e = refl

  namespaced-IsRight :
      (obj : Unstructured) (refused empty : Bool)
      → is_refused quoted configs obj ≡ refused
      → is_empty obj.namespace ≡ empty
      → (namespaced quoted configs refused empty obj).0 ≡ none
      → IsRight rest_scope_namespace obj (namespaced quoted configs refused empty obj)
  unfolding namespaced is_refused
  namespaced-IsRight obj true empty r e h = absurd (cc)
  namespaced-IsRight obj false true r e h = record {
    fine = ground arith;
    same =
        ap (λ own. record obj { namespace = settled rest_scope_namespace own })
          (sym (settled_empty obj.namespace e));
  }
  namespaced-IsRight obj false false r e h = record {
    fine = ground arith;
    same = with_namespace obj _ (sym (settled_own obj.namespace e));
  }

  clustered-IsRight :
      (obj : Unstructured) (empty : Bool)
      → is_empty obj.namespace ≡ empty
      → (clustered quoted configs empty obj).0 ≡ none
      → IsRight rest_scope_root obj (clustered quoted configs empty obj)
  unfolding clustered
  clustered-IsRight obj true e h = record {
    fine = e;
    same = with_namespace obj [] (settled_empty obj.namespace e);
  }
  clustered-IsRight obj false e h = absurd (cc)

  place_object-IsPlaced :
      (crds : List Unstructured) (obj : Unstructured) (found : Outcome RestScope)
      → scope configs.mapper obj crds ≡ found
      → (place_object quoted configs obj found).0 ≡ none
      → IsPlaced crds obj (place_object quoted configs obj found).1
  unfolding place_object
  place_object-IsPlaced crds obj (err e) f h = absurd (cc)
  place_object-IsPlaced crds obj (ok rest_scope_namespace) f h =
      let r = namespaced-IsRight obj _ _ refl refl h in
      record { rest_scope = rest_scope_namespace; found = f; came = r.fine; left = r.same }
  place_object-IsPlaced crds obj (ok rest_scope_root) f h =
      let r = clustered-IsRight obj _ refl h in
      record { rest_scope = rest_scope_root; found = f; came = r.fine; left = r.same }

  and_next-ArePlaced :
      (crds objs : List Unstructured) (obj : Unstructured) (p : Placing)
      (later : Option Error × List Unstructured)
      → (p.0 ≡ none → IsPlaced crds obj p.1)
      → (later.0 ≡ none → ArePlaced crds objs later.1)
      → (and_next quoted configs objs p later).0 ≡ none
      → ArePlaced crds (obj ∷ objs) (and_next quoted configs objs p later).1
  unfolding and_next
  and_next-ArePlaced crds objs obj (some e, o) later first rest h = absurd (cc)
  and_next-ArePlaced crds objs obj (none, o) (error, l) first rest h =
      one_more (first refl) (rest h)

  place_each-ArePlaced :
      (crds objs : List Unstructured)
      → (place_each quoted configs crds objs).0 ≡ none
      → ArePlaced crds objs (place_each quoted configs crds objs).1
  unfolding place_each
  place_each-ArePlaced crds [] h = no_objects
  place_each-ArePlaced crds (obj ∷ objs) h =
      and_next-ArePlaced crds objs obj
        (place_object quoted configs obj (scope configs.mapper obj crds)) _
        (place_object-IsPlaced crds obj (scope configs.mapper obj crds) refl)
        (place_each-ArePlaced crds objs) h

  -- Where a namespace is configured or enforced and setNamespace returns no error, each object is the
  -- same but for its namespace. One that has its own keeps it, and so has a namespaced scope and, if the
  -- namespace is enforced, the configured one; of the others a namespaced one gets the configured
  -- namespace, and one of the cluster gets none.
  pub set_namespace-ArePlaced :
      (objs : List Unstructured)
      → is_off ≡ false
      → (set_namespace quoted configs objs).0 ≡ none
      → ArePlaced (find_crds objs) objs (set_namespace quoted configs objs).1
  unfolding set_namespace unless_off
  set_namespace-ArePlaced objs on h =
      let turned_on = ap (λ b. unless_off quoted configs b objs) on in
      subst (λ (r : Option Error × List Unstructured). ArePlaced (find_crds objs) objs r.1)
        (sym turned_on)
        (place_each-ArePlaced (find_crds objs) objs (ap (λ r. r.0) (sym turned_on) ∙ h))
