-- ===== src/Client/Passes/Mutated.antt =====
-- What the mutators write to the object at an address.
use mathlib.Core.List.{Mem, mem-cons_self, mem-cons_of_mem, not-mem-nil, Nodup, Nodup-cons}
use jpl.Base.{
  ℕ, List, [], ◌∷◌, Option, none, some, true, false, ◌≡◌, ◌≢◌, refl, sym, ap, subst, ◌∙◌, arith,
  map, Bool-cases, All, inl, inr, ℕ_discrete, if◌then◌else◌,
}
use jpl.Base.Sets.{contains, contains_of_mem, mem_of_contains}
use jpl.Remote.{Error}
use jpl.Resource.Object.{Unstructured}
use jpl.Client.Passes.{
  Mutator, write, mutated, mutate_at, mutate_each, unless_failed, mutate_objects, at_address,
}
use jpl.Client.Passes.Kept.{addresses, addresses-mutate_each}

at_address-address :
    (a : ℕ) (objs : List Unstructured) (obj : Unstructured)
    → at_address a objs ≡ some obj
    → obj.address ≡ a
unfolding at_address
at_address-address a [] obj h = absurd (cc h)
at_address-address a (o ∷ objs) obj h = ground (arith, at_address-address a objs obj)

at_address-write_other :
    (p : ℕ) (new : Unstructured) (objs : List Unstructured)
    → p ≢ new.address
    → at_address p (write new objs) ≡ at_address p objs
unfolding at_address write
at_address-write_other p new [] h = refl
at_address-write_other p new (o ∷ objs) h = ground (arith, at_address-write_other p new objs h)

at_address-write :
    (new old : Unstructured) (objs : List Unstructured)
    → at_address new.address objs ≡ some old
    → at_address new.address (write new objs) ≡ some new
unfolding at_address write
at_address-write new old [] h = absurd (cc h)
at_address-write new old (o ∷ objs) h = ground (arith, at_address-write new old objs)

Mem-tail : (p a : ℕ) (pointers : List ℕ) → p ≢ a → Mem p (a ∷ pointers) → Mem p pointers
unfolding contains
Mem-tail p a pointers d m =
    let there = contains_of_mem ℕ_discrete p (a ∷ pointers) m in
    mem_of_contains ℕ_discrete p pointers (ground arith)

addresses-map :
    (objs : List Unstructured) → map (λ (o : Unstructured). o.address) objs ≡ addresses objs
addresses-map [] = refl
addresses-map (obj ∷ objs) = ap (λ l. obj.address ∷ l) (addresses-map objs)

at_address-Mem :
    (a : ℕ) (objs : List Unstructured) (obj : Unstructured)
    → at_address a objs ≡ some obj
    → Mem a (addresses objs)
unfolding at_address
at_address-Mem a [] obj h = absurd (cc h)
at_address-Mem a (o ∷ objs) obj h = elim (ℕ_discrete o.address a) [
  | yes e ↦ subst (λ x. Mem x (addresses (o ∷ objs))) e mem-cons_self
  | no d ↦ mem-cons_of_mem _ (at_address-Mem a objs obj (ground arith))
]

module _ {R : Type 0} where
  -- A mutator that writes to the object that it is given.
  abbrev pub IsInPlace : Mutator R → Type 0
  IsInPlace m = (obj : Unstructured) (r : R) → ((m.mutate obj r).0).1.address ≡ obj.address

  -- What one mutator makes of an object: nothing, or what Mutate writes.
  pub data IsStep (m : Mutator R) (obj : Unstructured) : Unstructured → Type 0 where
    passed : m.can_handle_resource obj ≡ false → IsStep m obj obj
    wrote :
        (obj' : Unstructured) (r r' : R)
        → m.can_handle_resource obj ≡ true
        → m.mutate obj r ≡ ((none, obj'), r')
        → IsStep m obj obj'

  -- What the mutators make of an object, one after the other.
  pub data IsMutatedBy : List (Mutator R) → Unstructured → Unstructured → Type 0 where
    unchanged : (obj : Unstructured) → IsMutatedBy [] obj obj
    then_by :
        {m : Mutator R} {ms : List (Mutator R)} {obj mid obj' : Unstructured}
        → IsStep m obj mid
        → IsMutatedBy ms mid obj'
        → IsMutatedBy (m ∷ ms) obj obj'

  -- The loop after one pointer, where it ends without an error.
  record IsAfter (m : Mutator R) (a : ℕ)
      (next : List Unstructured → R → (Option Error × List Unstructured) × R)
      (objs out : List Unstructured) (last : R) : Type 0 where
    between : List Unstructured
    state : R
    left : next between state ≡ ((none, out), last)
    others : (p : ℕ) → p ≢ a → at_address p between ≡ at_address p objs
    here :
        (obj : Unstructured)
        → at_address a objs ≡ some obj
        → (obj' : Unstructured) × IsStep m obj obj' × (at_address a between ≡ some obj')

  mutated-IsAfter :
      (m : Mutator R) (a : ℕ)
      (next : List Unstructured → R → (Option Error × List Unstructured) × R)
      (objs out : List Unstructured) (r last : R) (obj : Unstructured)
      (answer : (Option Error × Unstructured) × R)
      → IsInPlace m
      → at_address a objs ≡ some obj
      → m.can_handle_resource obj ≡ true
      → m.mutate obj r ≡ answer
      → mutated next objs answer ≡ ((none, out), last)
      → IsAfter m a next objs out last
  unfolding mutated
  mutated-IsAfter m a next objs out r last obj ((some e, new), r') stays at_a handles made h =
      absurd (cc h)
  mutated-IsAfter m a next objs out r last obj ((none, new), r') stays at_a handles made h =
      let same : new.address ≡ a =
        sym (ap (λ x. (x.0).1.address) made) ∙ stays obj r ∙ at_address-address a objs obj at_a in
      record {
        between = write new objs;
        state = r';
        left = h;
        others = λ p ne. at_address-write_other p new objs (λ e. ne (e ∙ same));
        here = λ other found. (
          new,
          subst (λ o. IsStep m o new) (cc (at_a, found)) (wrote new r r' handles made),
          subst (λ x. at_address x (write new objs) ≡ some new) same
              (at_address-write new obj objs
                (subst (λ x. at_address x objs ≡ some obj) (sym same) at_a)),
        );
      }

  mutate_at-IsAfter :
      (m : Mutator R) (a : ℕ)
      (next : List Unstructured → R → (Option Error × List Unstructured) × R)
      (objs out : List Unstructured) (r last : R) (o : Option Unstructured)
      → IsInPlace m
      → at_address a objs ≡ o
      → mutate_at m next objs r o ≡ ((none, out), last)
      → IsAfter m a next objs out last
  unfolding mutate_at
  mutate_at-IsAfter m a next objs out r last none stays at_a h = record {
    between = objs;
    state = r;
    left = h;
    others = λ p ne. refl;
    here = λ obj found. absurd (cc (at_a, found));
  }
  mutate_at-IsAfter m a next objs out r last (some obj) stays at_a h =
      elim (Bool-cases (m.can_handle_resource obj)) [
        | inl e ↦
            mutated-IsAfter m a next objs out r last obj (m.mutate obj r) stays at_a e refl
              (sym (ap (λ b. if b then mutated next objs (m.mutate obj r) else next objs r) e) ∙ h)
        | inr e ↦ record {
          between = objs;
          state = r;
          left =
              sym (ap (λ b. if b then mutated next objs (m.mutate obj r) else next objs r) e) ∙ h;
          others = λ p ne. refl;
          here = λ other found. (
            other,
            passed (subst (λ o. m.can_handle_resource o ≡ false) (cc (at_a, found)) e),
            found,
          );
        }
      ]

  mutate_each-others :
      (m : Mutator R) (pointers : List ℕ) (objs out : List Unstructured) (r last : R) (p : ℕ)
      → IsInPlace m
      → ¬ Mem p pointers
      → mutate_each m pointers objs r ≡ ((none, out), last)
      → at_address p out ≡ at_address p objs
  unfolding mutate_each
  mutate_each-others m [] objs out r last p stays absent h = ap (at_address p) (cc h)
  mutate_each-others m (a ∷ pointers) objs out r last p stays absent h =
      let s = mutate_at-IsAfter m a (mutate_each m pointers) objs out r last _ stays refl h in
      mutate_each-others m pointers s.between out s.state last p stays
        (λ there. absent (mem-cons_of_mem _ there)) s.left
      ∙ s.others p (λ e. absent (subst (λ x. Mem x (a ∷ pointers)) (sym e) mem-cons_self))

  -- A pointer to an object that is there: after the loop it is what the mutator makes of it.
  mutate_each-here :
      (m : Mutator R) (p : ℕ) (obj : Unstructured) (pointers : List ℕ)
      (objs out : List Unstructured) (r last : R)
      → IsInPlace m
      → Nodup pointers
      → Mem p pointers
      → at_address p objs ≡ some obj
      → mutate_each m pointers objs r ≡ ((none, out), last)
      → (obj' : Unstructured) × IsStep m obj obj' × (at_address p out ≡ some obj')
  unfolding mutate_each
  mutate_each-here m p obj [] objs out r last stays distinct there found h =
      absurd (not-mem-nil there)
  mutate_each-here m p obj (a ∷ pointers) objs out r last stays distinct there found h =
      let s = mutate_at-IsAfter m a (mutate_each m pointers) objs out r last _ stays refl h in
      let (absent, rest) = Nodup-cons.0 distinct in
      elim (ℕ_discrete p a) [
        | yes e ↦
            let (obj', step, at_a) =
              s.here obj (subst (λ x. at_address x objs ≡ some obj) e found) in
            (
              obj',
              step,
              mutate_each-others m pointers s.between out s.state last p stays
                    (λ q. absent (subst (λ x. Mem x pointers) e q)) s.left
                  ∙ ap (λ x. at_address x s.between) e
                  ∙ at_a,
            )
        | no d ↦
            mutate_each-here m p obj pointers s.between out s.state last stays rest
              (Mem-tail p a pointers d there) (s.others p d ∙ found) s.left
      ]

  mutate_rest-mutates :
      (m : Mutator R) (ms : List (Mutator R)) (p : ℕ) (obj : Unstructured)
      (objs out : List Unstructured) (r last : R) (answer : (Option Error × List Unstructured) × R)
      → IsInPlace m
      → Nodup (addresses objs)
      → at_address p objs ≡ some obj
      → mutate_each m (map (λ (o : Unstructured). o.address) objs) objs r ≡ answer
      → ((mid : Unstructured) (between : List Unstructured) (r' : R)
          → addresses between ≡ addresses objs
          → at_address p between ≡ some mid
          → mutate_objects ms between r' ≡ ((none, out), last)
          → (obj' : Unstructured) × IsMutatedBy ms mid obj' × (at_address p out ≡ some obj'))
      → unless_failed (mutate_objects ms) answer ≡ ((none, out), last)
      → (obj' : Unstructured) × IsMutatedBy (m ∷ ms) obj obj' × (at_address p out ≡ some obj')
  unfolding unless_failed
  mutate_rest-mutates m ms p obj objs out r last ((some e, between), r') stays distinct found made
        rest h =
      absurd (cc h)
  mutate_rest-mutates m ms p obj objs out r last ((none, between), r') stays distinct found made
        rest h =
      let pointers = map (λ (o : Unstructured). o.address) objs in
      let (mid, step, at_p) =
        mutate_each-here m p obj pointers objs between r r' stays
          (subst Nodup (sym (addresses-map objs)) distinct)
          (subst (Mem p) (sym (addresses-map objs)) (at_address-Mem p objs obj found)) found made in
      let (obj', steps, at_end) =
        rest mid between r'
          (ap (λ x. addresses (x.0).1) (sym made) ∙ addresses-mutate_each m pointers objs r) at_p
          h in
      (obj', then_by step steps, at_end)

  -- An object among those that are mutated is, after the mutators, what they make of it one after the
  -- other.
  pub mutate_objects-mutates :
      (ms : List (Mutator R)) (p : ℕ) (obj : Unstructured) (objs out : List Unstructured)
      (r last : R)
      → All IsInPlace ms
      → Nodup (addresses objs)
      → at_address p objs ≡ some obj
      → mutate_objects ms objs r ≡ ((none, out), last)
      → (obj' : Unstructured) × IsMutatedBy ms obj obj' × (at_address p out ≡ some obj')
  unfolding mutate_objects
  mutate_objects-mutates [] p obj objs out r last stay distinct found h =
      (obj, unchanged obj, ap (at_address p) (sym (cc h)) ∙ found)
  mutate_objects-mutates (m ∷ ms) p obj objs out r last stay distinct found h =
      mutate_rest-mutates m ms p obj objs out r last _ stay.0 distinct found refl
        (λ mid between r' same at_p left.
          mutate_objects-mutates ms p mid between out r' last stay.1
            (subst Nodup (sym same) distinct) at_p left)
        h
