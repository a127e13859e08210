-- ===== src/Client/Passes/Kept.antt =====
-- Which objects there are after the mutators.
use jpl.Base.{
  ℕ, List, [], ◌∷◌, ◌++◌, Option, none, some, ◌≡◌, refl, ap, ap₂, sym, ◌∙◌, Bool-cases, inl, inr,
  ==_iff, ◌==◌,
}
use jpl.Remote.{Error}
use jpl.Resource.Object.{Unstructured}
use jpl.Client.Passes.{
  Mutator, write, mutated, mutate_at, mutate_each, unless_failed, mutate_objects,
}

abbrev pub addresses : List Unstructured → List ℕ
addresses [] = []
addresses (obj ∷ objs) = obj.address ∷ addresses objs

pub addresses-append :
    (xs ys : List Unstructured) → addresses (xs ++ ys) ≡ addresses xs ++ addresses ys
addresses-append [] ys = refl
addresses-append (x ∷ xs) ys = ap (λ l. x.address ∷ l) (addresses-append xs ys)

addresses-write :
    (new : Unstructured) (objs : List Unstructured) → addresses (write new objs) ≡ addresses objs
unfolding write
addresses-write new [] = refl
addresses-write new (obj ∷ objs) = elim (Bool-cases (obj.address == new.address)) [
  | inl e ↦
      rw e
        (ap₂ (λ a l. a ∷ l) (sym ((==_iff obj.address new.address).0 e)) (addresses-write new objs))
  | inr e ↦ rw e (ap (λ l. obj.address ∷ l) (addresses-write new objs))
]

module _ {R : Type 0} where
  -- What is left to do keeps the addresses.
  abbrev pub Keeps : (List Unstructured → R → (Option Error × List Unstructured) × R) → Type 0
  Keeps next = (objs : List Unstructured) (r : R) → addresses ((next objs r).0).1 ≡ addresses objs

  addresses-mutated :
      (next : List Unstructured → R → (Option Error × List Unstructured) × R)
      (objs : List Unstructured) (answer : (Option Error × Unstructured) × R)
      → Keeps next
      → addresses ((mutated next objs answer).0).1 ≡ addresses objs
  unfolding mutated
  addresses-mutated next objs ((some e, new), r) keeps = addresses-write new objs
  addresses-mutated next objs ((none, new), r) keeps =
      keeps (write new objs) r ∙ addresses-write new objs

  addresses-mutate_at :
      (m : Mutator R) (next : List Unstructured → R → (Option Error × List Unstructured) × R)
      (objs : List Unstructured) (r : R) (o : Option Unstructured)
      → Keeps next
      → addresses ((mutate_at m next objs r o).0).1 ≡ addresses objs
  unfolding mutate_at
  addresses-mutate_at m next objs r none keeps = keeps objs r
  addresses-mutate_at m next objs r (some obj) keeps =
      elim (Bool-cases (m.can_handle_resource obj)) [
        | inl e ↦ rw e (addresses-mutated next objs (m.mutate obj r) keeps)
        | inr e ↦ rw e (keeps objs r)
      ]

  pub addresses-mutate_each : (m : Mutator R) (pointers : List ℕ) → Keeps (mutate_each m pointers)
  unfolding mutate_each
  addresses-mutate_each m [] objs r = refl
  addresses-mutate_each m (a ∷ pointers) objs r =
      addresses-mutate_at m (mutate_each m pointers) objs r _ (addresses-mutate_each m pointers)

  addresses-unless_failed :
      (next : List Unstructured → R → (Option Error × List Unstructured) × R)
      (answer : (Option Error × List Unstructured) × R)
      → Keeps next
      → addresses ((unless_failed next answer).0).1 ≡ addresses (answer.0).1
  unfolding unless_failed
  addresses-unless_failed next ((some e, objs), r) keeps = refl
  addresses-unless_failed next ((none, objs), r) keeps = keeps objs r

  -- The mutators write to the objects that they are given, and add and drop none.
  pub addresses-mutate_objects : (ms : List (Mutator R)) → Keeps (mutate_objects ms)
  unfolding mutate_objects
  addresses-mutate_objects [] objs r = refl
  addresses-mutate_objects (m ∷ ms) objs r =
      addresses-unless_failed (mutate_objects ms) _ (addresses-mutate_objects ms)
      ∙ addresses-mutate_each m _ objs r
