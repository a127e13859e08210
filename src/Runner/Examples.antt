-- ===== src/Runner/Examples.antt =====
-- A namespace and a deployment in it, applied to a server of which the state is a count of requests.
use mathlib.Core.List.{mem-cons_self, mem-cons_of_mem}
use jpl.Base.{
  ℕ, suc, ◌+◌, ◌≤◌, Str, codes, [], ◌∷◌, none, some, true, false, ◌≡◌, refl, arith, not, ◌&&◌,
}
use jpl.Base.Maps.{get}
use jpl.Base.Sets.{contains}
use jpl.Remote.{Error, ok, err, conflict, unsupported_media_type}
use jpl.Event.{Event, type_status_update, status_successful}
use jpl.Inventory.Manager.{new_inventory, is_tracked}
use jpl.Inventory.Manager.Saved.{is_saved}
use jpl.Poller.Result.{text}
use jpl.Resource.Object.{
  GroupKind, ObjectMetadata, Unstructured, object_discrete, metadata_discrete,
}
use jpl.Runner.State.{RunnerState}
use jpl.Runner.State.Faithful.{last_said}
use jpl.Runner.Patch.{PatchApi, max_patch_retry, migrate_to_ssa_if_necessary}
use jpl.Runner.Patch.Bounds.{Counts, IsContended, migrate-bound, migrate-contended}
use jpl.Runner.Apply.{ApplySetup, run_apply}
use jpl.Runner.Apply.Outcomes.{is_decided, run_apply-decides}
use jpl.Runner.Apply.Reached.{IsReach, run_apply-IsReach}
use jpl.Runner.Wait.{wait_loop}
use jpl.Runner.Wait.Ready.{any_ready, wait_loop-watched}
use jpl.Runner.Queue.{
  TaskSetup, apply_task, wait_task, inventory_task, run_task, Runs, context_done, next,
}
use jpl.Runner.Queue.Traces.{Runs-saved, new_state}

abbrev shop : Unstructured
shop = record {
  address = 1;
  gvk = record { group = []; version = codes "v1"; kind = codes "Namespace" };
  name = codes "shop";
  namespace = [];
  annotations = [];
}

abbrev web : Unstructured
web = record {
  address = 2;
  gvk = record { group = codes "apps"; version = codes "v1"; kind = codes "Deployment" };
  name = codes "web";
  namespace = codes "shop";
  annotations = [];
}

abbrev web_id : ObjectMetadata
web_id = record {
  name = codes "web";
  namespace = codes "shop";
  group = codes "apps";
  kind = codes "Deployment";
}

abbrev refused : Error
refused = record { text = codes "the object has been modified"; reason = conflict }

-- A server that refuses each JSON patch with a conflict.
abbrev contended : PatchApi ℕ Unstructured Unstructured Str
contended = record {
  encode = λ info. ok info.name;
  apply_patch = λ info body dry_run manager r. (ok info, r);
  refresh = λ object info. info;
  field_owners = λ info. ok (codes "kubectl" ∷ []);
  upgrade_managed_fields_patch = λ info names manager. ok (some info.name);
  json_patch = λ info patch manager r. (err refused, suc r);
  get_info = λ info r. (ok info, r);
  deleting = λ info. none;
}

counts : Counts contended (codes "jpl") (λ r. r)
counts = record { patch = λ info body r. omega arith; get = λ info r. omega arith }

migrate-bound_example :
    (migrate_to_ssa_if_necessary contended (codes "jpl") web 7).remote ≤ 7 + max_patch_retry
migrate-bound_example = migrate-bound contended (codes "jpl") (λ r. r) counts web 7

is_contended : IsContended contended (codes "jpl")
is_contended = record {
  upgrades = λ info names. (info.name, refl);
  refuses = λ info body r. (refused, refl, refl);
  gets = λ info r. (info, refl);
}

migrate-contended_example :
    ((migrate_to_ssa_if_necessary contended (codes "jpl") web 7).migrated ≡ false)
    × ((migrate_to_ssa_if_necessary contended (codes "jpl") web 7).error ≡ none)
migrate-contended_example =
    migrate-contended contended (codes "jpl") is_contended web 7 (codes "kubectl" ∷ []) refl

abbrev quiet : ApplySetup ℕ Unstructured
quiet = record {
  filters = [];
  info_fetcher = λ obj r. (ok obj, r);
  apply = λ info r. (none, suc r);
}

abbrev begun : RunnerState ℕ
begun = new_state (shop ∷ []) 0

run_apply-decides_example :
    is_decided
      (get object_discrete web (run_apply quiet (shop ∷ web ∷ []) begun).manager.object_statuses)
    ≡ true
run_apply-decides_example =
    run_apply-decides quiet (λ info r e h. absurd (cc)) (shop ∷ web ∷ []) begun web
      (mem-cons_of_mem shop mem-cons_self)

abbrev unsupported : Error
unsupported = record { text = codes "unsupported"; reason = unsupported_media_type }

abbrev old_server : ApplySetup ℕ Unstructured
old_server = record quiet { apply = λ info r. (some unsupported, suc r) }

run_apply-IsReach_example :
    IsReach old_server (shop ∷ web ∷ []) begun (run_apply old_server (shop ∷ web ∷ []) begun)
run_apply-IsReach_example = run_apply-IsReach old_server (shop ∷ web ∷ []) begun

abbrev web_ready : Event
web_ready = type_status_update (record {
  status = status_successful;
  message = text (codes "ready");
  object_metadata = web_id;
})

wait_loop-watched_example :
    contains metadata_discrete web_id
      (wait_loop
        (web_ready ∷ [])
        (record { reset_mapper = false; watched = web_id ∷ []; state = begun })).watched
    ≡ (contains metadata_discrete web_id (web_id ∷ []) && not (any_ready web_id (web_ready ∷ [])))
wait_loop-watched_example =
    wait_loop-watched web_id (web_ready ∷ [])
      (record { reset_mapper = false; watched = web_id ∷ []; state = begun })

abbrev setup : TaskSetup ℕ Unstructured GroupKind
setup = record {
  apply = quiet;
  prune = record {
    rest_mapping = λ gk r. (ok gk, r);
    delete = λ mapping dry_run obj r. (none, suc r);
  };
  poll = λ objs r. (web_ready ∷ [], r);
  reset_mapper = λ r. r;
  save = λ objs dry_run r. (none, suc r);
  dry_run = false;
}

abbrev applied_web : RunnerState ℕ
applied_web = run_task setup (apply_task (web ∷ [])) begun

-- The context ends after the first task.
interrupted :
    Runs setup
      (apply_task (web ∷ []) ∷ wait_task (web ∷ []) ∷ inventory_task ∷ [])
      begun
      (some refused)
      applied_web
      (wait_task (web ∷ []) ∷ inventory_task ∷ [])
interrupted =
    next (apply_task (web ∷ [])) (wait_task (web ∷ []) ∷ inventory_task ∷ []) begun
      (context_done (wait_task (web ∷ []) ∷ inventory_task ∷ []) applied_web refused)

Runs-saved_example :
    contains object_discrete web (new_inventory applied_web.manager)
    ≡ is_saved (is_tracked web (shop ∷ [])) (last_said web none applied_web.events)
Runs-saved_example = Runs-saved setup (shop ∷ []) 0 interrupted web
