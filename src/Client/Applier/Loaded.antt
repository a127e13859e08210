-- ===== src/Client/Applier/Loaded.antt =====
-- What is loaded of the inventory.
use jpl.Base.{List, [], ◌∷◌, Option, none, some, true, ◌≡◌, refl, sym, ◌∙◌, ap, subst, arith}
use jpl.Base.Sets.{contains}
use jpl.Remote.{Outcome, ok, err}
use jpl.Resource.Object.{ObjectMetadata, Unstructured, object_discrete, metadata_discrete}
use jpl.Client.Applier.{
  Applier, loaded_also, loaded_more, load_each, load_ids, load_objects_from_inventory,
}

module _ {R Info Mapping : Type 0} (a : Applier R Info Mapping) where
  -- What the getter answers for one of the identities.
  pub record IsFound (ids : List ObjectMetadata) (x : Unstructured) : Type 0 where
    pub id : ObjectMetadata
    pub among : contains metadata_discrete id ids ≡ true
    pub asked : R
    pub left : R
    pub answer : a.get_remote id asked ≡ (ok (some x), left)

  -- What the getter answers for one of the identities that the store answers with.
  pub record IsTracked (r : R) (x : Unstructured) : Type 0 where
    pub ids : List ObjectMetadata
    pub left : R
    pub answer : a.load r ≡ (ok ids, left)
    pub found : IsFound ids x

  found_later :
      (id : ObjectMetadata) (ids : List ObjectMetadata) (x : Unstructured)
      → IsFound ids x
      → IsFound (id ∷ ids) x
  unfolding contains
  found_later id ids x f = record {
    id = f.id;
    among = ground (arith, f.among);
    asked = f.asked;
    left = f.left;
    answer = f.answer;
  }

  found_first :
      (id : ObjectMetadata) (ids : List ObjectMetadata) (x : Unstructured) (r r' : R)
      → a.get_remote id r ≡ (ok (some x), r')
      → IsFound (id ∷ ids) x
  unfolding contains
  found_first id ids x r r' h = record {
    id = id;
    among = ground arith;
    asked = r;
    left = r';
    answer = h;
  }

  loaded_also-parts :
      (obj : Unstructured) (answer : Outcome (List Unstructured) × R) (objs : List Unstructured)
      (last : R)
      → loaded_also a obj answer ≡ (ok objs, last)
      → (rest : List Unstructured) × (answer ≡ (ok rest, last)) × (objs ≡ obj ∷ rest)
  unfolding loaded_also
  loaded_also-parts obj (err e, r) objs last h = absurd (cc h)
  loaded_also-parts obj (ok rest, r) objs last h = (rest, ap (λ x. (ok rest, x)) (cc h), sym (cc h))

  loaded_more-found :
      (id : ObjectMetadata) (ids : List ObjectMetadata) (x : Unstructured) (r last : R)
      (answer : Outcome (Option Unstructured) × R) (objs : List Unstructured)
      → a.get_remote id r ≡ answer
      → ((rest : List Unstructured) (r' : R)
          → load_each a ids r' ≡ (ok rest, last)
          → contains object_discrete x rest ≡ true
          → IsFound ids x)
      → loaded_more a (load_each a ids) answer ≡ (ok objs, last)
      → contains object_discrete x objs ≡ true
      → IsFound (id ∷ ids) x
  unfolding loaded_more contains
  loaded_more-found id ids x r last (err e, r') objs g later h there = absurd (cc h)
  loaded_more-found id ids x r last (ok none, r') objs g later h there =
      found_later id ids x (later objs r' h there)
  loaded_more-found id ids x r last (ok (some obj), r') objs g later h there =
      let (rest, same, parts) = loaded_also-parts obj (load_each a ids r') objs last h in
      let here : contains object_discrete x (obj ∷ rest) ≡ true =
        subst (λ l. contains object_discrete x l ≡ true) parts there in
      elim (object_discrete x obj) [
        | yes e ↦ found_first id ids x r r' (g ∙ ap (λ o. (ok (some o), r')) (sym e))
        | no d ↦ found_later id ids x (later rest r' same (ground arith))
      ]

  load_each-found :
      (ids : List ObjectMetadata) (x : Unstructured) (objs : List Unstructured) (r last : R)
      → load_each a ids r ≡ (ok objs, last)
      → contains object_discrete x objs ≡ true
      → IsFound ids x
  unfolding load_each contains
  load_each-found [] x objs r last h there =
      let none_found : objs ≡ [] = sym (cc h) in
      absurd (cc (subst (λ l. contains object_discrete x l ≡ true) none_found there))
  load_each-found (id ∷ ids) x objs r last h there =
      loaded_more-found id ids x r last _ objs refl
        (λ rest r' e f. load_each-found ids x rest r' last e f) h there

  load_ids-IsTracked :
      (x : Unstructured) (r : R) (objs : List Unstructured) (last : R)
      (answer : Outcome (List ObjectMetadata) × R)
      → a.load r ≡ answer
      → load_ids a answer ≡ (ok objs, last)
      → contains object_discrete x objs ≡ true
      → IsTracked r x
  unfolding load_ids
  load_ids-IsTracked x r objs last (err e, r') g h there = absurd (cc h)
  load_ids-IsTracked x r objs last (ok ids, r') g h there = record {
    ids = ids;
    left = r';
    answer = g;
    found = load_each-found ids x objs r' last h there;
  }

  -- What is loaded is what the getter answered for an identity of the store.
  pub load-IsTracked :
      (x : Unstructured) (r : R) (objs : List Unstructured) (last : R)
      → load_objects_from_inventory a r ≡ (ok objs, last)
      → contains object_discrete x objs ≡ true
      → IsTracked r x
  unfolding load_objects_from_inventory
  load-IsTracked x r objs last h there = load_ids-IsTracked x r objs last _ refl h there
