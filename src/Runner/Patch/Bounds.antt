-- ===== src/Runner/Patch/Bounds.antt =====
-- How often the migration patches the object, and that it never fails an apply.
use jpl.Base.{
  ℕ, zero, suc, ◌+◌, ◌≤◌, Str, List, Option, none, some, Bool, true, false, ◌≡◌, refl, ap, subst,
  ◌∙◌, arith, Bool-cases, inl, inr,
}
use jpl.Remote.{Error, Outcome, ok, err, is_conflict}
use jpl.Runner.Patch.{
  PatchApi, Migration, fetched, patched, upgraded, owned, attempts, encoded, first_applied,
  migrate_to_ssa_if_necessary, applied_with, apply_object, max_patch_retry,
}

module _ {R Info Object Data : Type 0} (api : PatchApi R Info Object Data)
    (field_manager : Str) where
  -- A count of the patches that the server has received.
  pub record Counts (patches : R → ℕ) : Type 0 where
    pub patch :
        (info : Info) (body : Data) (r : R)
        → patches (api.json_patch info body field_manager r).1 ≤ patches r + 1
    pub get : (info : Info) (r : R) → patches (api.get_info info r).1 ≤ patches r

  fetched-bound :
      (patches : R → ℕ) (bound : ℕ) (again : Info → R → Migration R Info) (info : Info)
      (answer : Outcome Info × R)
      → ((info' : Info) (r : R) → patches (again info' r).remote ≤ patches r + bound)
      → patches (fetched api field_manager again info answer).remote ≤ patches answer.1 + bound
  unfolding fetched
  fetched-bound patches bound again info (err e, r) h = omega arith
  fetched-bound patches bound again info (ok info', r) h = h info' r

  patched-bound :
      (patches : R → ℕ)
      → Counts patches
      → (bound : ℕ) (again : Info → R → Migration R Info) (info : Info)
        (answer : Outcome Object × R)
      → ((info' : Info) (r : R) → patches (again info' r).remote ≤ patches r + bound)
      → patches (patched api field_manager again info answer).remote ≤ patches answer.1 + bound
  unfolding patched
  patched-bound patches counts bound again info (ok object, r) h = omega arith
  patched-bound patches counts bound again info (err e, r) h = elim (Bool-cases (is_conflict e)) [
    | inl c ↦
        rw (c, patched)
          (omega (
            arith,
            counts.get info r,
            fetched-bound patches bound again info (api.get_info info r) h,
          ))
    | inr c ↦ rw (c, patched) (omega arith)
  ]

  attempts-bound :
      (patches : R → ℕ)
      → Counts patches
      → (n : ℕ) (error : Option Error) (names : List Str) (info : Info) (r : R)
      → patches (attempts api field_manager n error names info r).remote ≤ patches r + n
  unfolding attempts upgraded
  attempts-bound patches counts zero error names info r = omega arith
  attempts-bound patches counts (suc n) error names info r =
      upgraded-bound (attempts-bound patches counts n none names)
        (api.upgrade_managed_fields_patch info names field_manager)
    where
      upgraded-bound :
          ((info' : Info) (r' : R)
            → patches (attempts api field_manager n none names info' r').remote ≤ patches r' + n)
          → (o : Outcome (Option Data))
          → patches
              (upgraded api field_manager (attempts api field_manager n none names) info r o).remote
            ≤ patches r + suc n
      upgraded-bound h (err e) = omega arith
      upgraded-bound h (ok none) = omega arith
      upgraded-bound h (ok (some patch)) = omega (
        arith,
        counts.patch info patch r,
        patched-bound patches counts n (attempts api field_manager n none names) info
            (api.json_patch info patch field_manager r) h,
      )

  -- However the server answers, the migration of one object sends at most five JSON patches.
  pub migrate-bound :
      (patches : R → ℕ)
      → Counts patches
      → (info : Info) (r : R)
      → patches (migrate_to_ssa_if_necessary api field_manager info r).remote
        ≤ patches r + max_patch_retry
  unfolding migrate_to_ssa_if_necessary owned
  migrate-bound patches counts info r = go (api.field_owners info)
    where
      go :
          (o : Outcome (List Str))
          → patches (owned api field_manager info r o).remote ≤ patches r + max_patch_retry
      go (err e) = omega arith
      go (ok owners) = attempts-bound patches counts max_patch_retry none _ info r

  -- A server that always has a patch to make, refuses it with a conflict, and hands out the object.
  pub record IsContended : Type 0 where
    pub upgrades :
        (info : Info) (names : List Str)
        → (body : Data) × (api.upgrade_managed_fields_patch info names field_manager
            ≡ ok (some body))
    pub refuses :
        (info : Info) (body : Data) (r : R)
        → (e : Error) × ((api.json_patch info body field_manager r).0 ≡ err e)
          × (is_conflict e ≡ true)
    pub gets : (info : Info) (r : R) → (info' : Info) × ((api.get_info info r).0 ≡ ok info')

  fetched-ok :
      (again : Info → R → Migration R Info) (info info' : Info) (answer : Outcome Info × R)
      → answer.0 ≡ ok info'
      → fetched api field_manager again info answer ≡ again info' answer.1
  unfolding fetched
  fetched-ok again info info' (err e, r) h = absurd (cc)
  fetched-ok again info info' (ok found, r) h = ap (λ i. again i r) (cc)

  patched-conflict :
      (again : Info → R → Migration R Info) (info : Info) (answer : Outcome Object × R) (e : Error)
      → answer.0 ≡ err e
      → is_conflict e ≡ true
      → patched api field_manager again info answer
        ≡ fetched api field_manager again info (api.get_info info answer.1)
  unfolding patched
  patched-conflict again info (ok object, r) e h c = absurd (cc)
  patched-conflict again info (err found, r) e h c =
      let c' : is_conflict found ≡ true =
        subst (λ x. is_conflict x ≡ true) {x = e} {y = found} (cc) c in
      rw (c', patched) refl

  attempts-contended :
      IsContended
      → (n : ℕ) (names : List Str) (info : Info) (r : R)
      → ((attempts api field_manager n none names info r).migrated ≡ false)
        × ((attempts api field_manager n none names info r).error ≡ none)
  unfolding attempts upgraded
  attempts-contended h zero names info r = (refl, refl)
  attempts-contended h (suc n) names info r =
      let (body, made) = h.upgrades info names in
      let answer = api.json_patch info body field_manager r in
      let (e, refused, conflicts) = h.refuses info body r in
      let (info', got) = h.gets info answer.1 in
      let again = attempts api field_manager n none names in
      let step : attempts api field_manager (suc n) none names info r
          ≡ again info' (api.get_info info answer.1).1 =
        ap (upgraded api field_manager again info r) made
        ∙ patched-conflict again info answer e refused conflicts
        ∙ fetched-ok again info info' (api.get_info info answer.1) got in
      rw step (attempts-contended h n names info' (api.get_info info answer.1).1)

  -- Where the owners of the object's fields are found, there is always a patch to make, the server refuses
  -- each patch with a conflict and answers each Get with an object, the migration gives up without an
  -- error: it says that nothing was migrated and that nothing went wrong.
  pub migrate-contended :
      IsContended
      → (info : Info) (r : R) (owners : List Str) → api.field_owners info ≡ ok owners
      → ((migrate_to_ssa_if_necessary api field_manager info r).migrated ≡ false)
        × ((migrate_to_ssa_if_necessary api field_manager info r).error ≡ none)
  unfolding migrate_to_ssa_if_necessary owned
  migrate-contended h info r owners found =
      rw (ap (owned api field_manager info r) found) (attempts-contended h max_patch_retry _ info r)

  -- An object that can be encoded, and that the server takes at the first patch, is applied: whatever
  -- happens to the migration, applyObject returns no error.
  pub apply_object-fine :
      (dry_run : Bool) (info : Info) (r : R) (body : Data) (object : Object)
      → api.encode info ≡ ok body
      → (api.apply_patch info body dry_run field_manager r).0 ≡ ok object
      → (apply_object api field_manager dry_run info r).0 ≡ none
  unfolding apply_object encoded first_applied applied_with
  apply_object-fine dry_run info r body object e f =
      ap (λ o. (encoded api field_manager dry_run info r o).0) e
      ∙ go (api.apply_patch info body dry_run field_manager r) f
    where
      go :
          (answer : Outcome Object × R)
          → answer.0 ≡ ok object
          → (first_applied api field_manager dry_run body info answer).0 ≡ none
      go (err x, r') h = absurd (cc)
      go (ok o, r') h = refl
