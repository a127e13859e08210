-- ===== src/Client/Passes.antt =====
-- pkg/client/applier.go: the generators and the mutators, generateObjects and mutateObjects.
-- They are parameters; an object that is mutated is the one at its address.
pub mod Kept
pub mod Mutated
use jpl.Base.{ℕ, List, [], ◌∷◌, ◌++◌, Option, none, some, Bool, if◌then◌else◌, map, ◌==◌}
use jpl.Remote.{Error, Outcome, ok, err, wrap}
use jpl.Resource.Object.{Unstructured}

-- generator.Interface
pub record Generator (R : Type 0) : Type 0 where
  pub can_handle_resource : Unstructured → Bool
  pub generate : Unstructured → R → Outcome (List Unstructured) × R

-- mutator.Interface: the object after the call, and the error.
pub record Mutator (R : Type 0) : Type 0 where
  pub can_handle_resource : Unstructured → Bool
  pub mutate : Unstructured → R → (Option Error × Unstructured) × R

-- The object at an address, and the objects after a write through a pointer.
unfoldable pub at_address : ℕ → List Unstructured → Option Unstructured
at_address a [] = none
at_address a (obj ∷ objs) =
    let later = at_address a objs in if obj.address == a then some obj else later

unfoldable pub write : Unstructured → List Unstructured → List Unstructured
write new [] = []
write new (obj ∷ objs) =
    let rest = write new objs in if obj.address == new.address then new ∷ rest else obj ∷ rest

module _ {R : Type 0} where
  -- After Generate: what is generated so far, and the error.
  unfoldable pub generated_more :
      (List Unstructured → R → (Option Error × List Unstructured) × R)
      → List Unstructured
      → Outcome (List Unstructured) × R
      → (Option Error × List Unstructured) × R
  generated_more next acc (err e, r) = ((some (wrap "generate resource failed: " e), acc), r)
  generated_more next acc (ok objs, r) = next (acc ++ objs) r

  -- The loop over the objects.
  unfoldable pub generate_each :
      Generator R
      → List Unstructured
      → List Unstructured
      → R
      → (Option Error × List Unstructured) × R
  generate_each g [] acc r = ((none, acc), r)
  generate_each g (obj ∷ objs) acc r =
      let skip = generate_each g objs acc r in
      let more = generated_more (generate_each g objs) acc (g.generate obj r) in
      if g.can_handle_resource obj then more else skip

  unfoldable pub unless_failed :
      (List Unstructured → R → (Option Error × List Unstructured) × R)
      → (Option Error × List Unstructured) × R
      → (Option Error × List Unstructured) × R
  unless_failed next ((some e, objs), r) = ((some e, objs), r)
  unless_failed next ((none, objs), r) = next objs r

  -- generateObjects
  unfoldable pub generate_objects :
      List (Generator R)
      → List Unstructured
      → List Unstructured
      → R
      → (Option Error × List Unstructured) × R
  generate_objects [] objs acc r = ((none, acc), r)
  generate_objects (g ∷ gs) objs acc r =
      unless_failed (generate_objects gs objs) (generate_each g objs acc r)

  -- After Mutate.
  unfoldable pub mutated :
      (List Unstructured → R → (Option Error × List Unstructured) × R)
      → List Unstructured
      → (Option Error × Unstructured) × R
      → (Option Error × List Unstructured) × R
  mutated next objs ((some e, new), r) =
      ((some (wrap "mutate resource failed: " e), write new objs), r)
  mutated next objs ((none, new), r) = next (write new objs) r

  unfoldable pub mutate_at :
      Mutator R
      → (List Unstructured → R → (Option Error × List Unstructured) × R)
      → List Unstructured
      → R
      → Option Unstructured
      → (Option Error × List Unstructured) × R
  mutate_at m next objs r none = next objs r
  mutate_at m next objs r (some obj) =
      if m.can_handle_resource obj then mutated next objs (m.mutate obj r) else next objs r

  -- The loop over the pointers.
  unfoldable pub mutate_each :
      Mutator R → List ℕ → List Unstructured → R → (Option Error × List Unstructured) × R
  mutate_each m [] objs r = ((none, objs), r)
  mutate_each m (a ∷ addresses) objs r =
      mutate_at m (mutate_each m addresses) objs r (at_address a objs)

  -- mutateObjects
  unfoldable pub mutate_objects :
      List (Mutator R) → List Unstructured → R → (Option Error × List Unstructured) × R
  mutate_objects [] objs r = ((none, objs), r)
  mutate_objects (m ∷ ms) objs r =
      unless_failed (mutate_objects ms)
        (mutate_each m (map (λ (o : Unstructured). o.address) objs) objs r)
