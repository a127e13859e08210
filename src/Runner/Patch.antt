-- ===== src/Runner/Patch.antt =====
-- pkg/runner/task/apply.go: applyObject, which sends an object to the server, and
-- migrateToSSAIfNecessary, which moves the ownership of its fields.
pub mod Bounds
use Prim.Native.String.{String}
use jpl.Base.{
  ℕ, zero, suc, Str, str_discrete, List, [], ◌∷◌, ◌++◌, Option, none, some, Bool, true, false,
  if◌then◌else◌, not,
}
use jpl.Base.Sets.{insert}
use jpl.Remote.{Error, Outcome, ok, err, is_unsupported_media_type, is_conflict, wrap}

-- What cli-runtime, csaupgrade and the server do for a resource of type `Info`. `R` is the state of
-- the server.
pub record PatchApi (R Info Object Data : Type 0) : Type 0 where
  pub encode : Info → Outcome Data
  pub apply_patch : Info → Data → Bool → Str → R → Outcome Object × R
  pub refresh : Object → Info → Info
  pub field_owners : Info → Outcome (List Str)
  pub upgrade_managed_fields_patch : Info → List Str → Str → Outcome (Option Data)
  pub json_patch : Info → Data → Str → R → Outcome Object × R
  pub get_info : Info → R → Outcome Info × R
  pub deleting : Info → Option Str

-- What is printed on the standard error.
pub data Warning : Type 0 where
  migration_patch_failed : Error → Warning
  changes_on_deleting_resource : Str → Warning
  migration_reapply_failed : Error → Warning

abbrev pub max_patch_retry : ℕ
max_patch_retry = 5

-- What migrateToSSAIfNecessary returns, with the refreshed info and the server.
pub record Migration (R Info : Type 0) : Type 0 where
  pub migrated : Bool
  pub error : Option Error
  pub info : Info
  pub remote : R

-- managerNames
add_names : List Str → List Str → List Str
add_names names [] = names
add_names names (name ∷ rest) = add_names (insert str_discrete name names) rest

module _ {R Info Object Data : Type 0} (api : PatchApi R Info Object Data)
    (field_manager : Str) where
  abbrev ended : Bool → Option Error → Info → R → Migration R Info
  ended migrated error info r = record {
    migrated = migrated;
    error = error;
    info = info;
    remote = r;
  }

  -- After `info.Get()`.
  fetched : (Info → R → Migration R Info) → Info → Outcome Info × R → Migration R Info
  fetched again info (err e, r) = ended false (some e) info r
  fetched again info (ok info', r) = again info' r

  -- After the JSON patch: a conflict is tried again.
  patched : (Info → R → Migration R Info) → Info → Outcome Object × R → Migration R Info
  patched again info (ok object, r) = ended true none (api.refresh object info) r
  patched again info (err e, r) = elim (is_conflict e) [
    | false ↦ ended false (some e) info r
    | true ↦ fetched again info (api.get_info info r)
  ]

  -- After the patch is made: none is needed where the object has been migrated.
  upgraded : (Info → R → Migration R Info) → Info → R → Outcome (Option Data) → Migration R Info
  upgraded again info r (err e) = ended false (some e) info r
  upgraded again info r (ok none) = ended false none info r
  upgraded again info r (ok (some patch)) =
      patched again info (api.json_patch info patch field_manager r)

  -- The loop, with the error of the variable `err`: `n` attempts are left. The last refresh of the
  -- info has cleared the variable.
  attempts : ℕ → Option Error → List Str → Info → R → Migration R Info
  attempts zero error names info r = ended false error info r
  attempts (suc n) error names info r =
      upgraded (attempts n none names) info r
        (api.upgrade_managed_fields_patch info names field_manager)

  owned : Info → R → Outcome (List Str) → Migration R Info
  owned info r (err e) = ended false (some e) info r
  owned info r (ok owners) =
      attempts max_patch_retry none (add_names (field_manager ∷ []) owners) info r

  -- migrateToSSAIfNecessary
  pub migrate_to_ssa_if_necessary : Info → R → Migration R Info
  migrate_to_ssa_if_necessary info r = owned info r (api.field_owners info)

  -- What follows the migration: the second apply, whose error is not fatal, or another refresh with
  -- the object of the first.
  after_migration : Bool → Data → Object → Migration R Info → List Warning × (Info × R)
  after_migration dry_run body object m = elim m.error [
    | some e ↦ (migration_patch_failed e ∷ [], (m.info, m.remote))
    | none ↦
        if m.migrated
        then (let (answer, r) = api.apply_patch m.info body dry_run field_manager m.remote in
            elim answer as (λ a. List Warning × (Info × R)) [
              | err e ↦ (migration_reapply_failed e ∷ [], (m.info, r))
              | ok again ↦ ([], (m.info, r))
            ])
        else ([], (api.refresh object m.info, m.remote))
  ]

  warn_if_deleting : Info → List Warning
  warn_if_deleting info = elim (api.deleting info) [
    | none ↦ []
    | some name ↦ changes_on_deleting_resource name ∷ []
  ]

  applied_with : Bool → Data → Object → Migration R Info → Option Error × (List Warning × R)
  applied_with dry_run body object m =
      let (warnings, (info, r)) = after_migration dry_run body object m in
      (none, (warnings ++ warn_if_deleting info, r))

  -- After the first patch.
  first_applied : Bool → Data → Info → Outcome Object × R → Option Error × (List Warning × R)
  first_applied dry_run body info (err e, r) =
      let e' =
        if is_unsupported_media_type e
        then wrap "server-side apply not available on the server: " e
        else e in
      (some e', ([], r))
  first_applied dry_run body info (ok object, r) =
      applied_with dry_run body object (migrate_to_ssa_if_necessary (api.refresh object info) r)

  encoded : Bool → Info → R → Outcome Data → Option Error × (List Warning × R)
  encoded dry_run info r (err e) = (some e, ([], r))
  encoded dry_run info r (ok body) =
      first_applied dry_run body info (api.apply_patch info body dry_run field_manager r)

  -- applyObject: the error, what is printed, and the server.
  pub apply_object : Bool → Info → R → Option Error × (List Warning × R)
  apply_object dry_run info r = encoded dry_run info r (api.encode info)
