-- ===== src/Client/Applier/Stages.antt =====
-- How the preparation of a run ends.
use jpl.Base.{List, [], ◌∷◌, ◌++◌, none, some, ◌≡◌}
use jpl.Event.{type_error}
use jpl.Remote.{Error, ok, err}
use jpl.Resource.Object.{Unstructured}
use jpl.Runner.Queue.{Task}
use jpl.Client.Passes.{generate_objects, mutate_objects}
use jpl.Client.QueueBuilder.{build}
use jpl.Client.Applier.{
  Applier, ApplierOptions, Prepared, stopped, ready, builder, queue_options, new_state,
  load_objects_from_inventory,
}

module _ {R Info Mapping : Type 0} (a : Applier R Info Mapping) (options : ApplierOptions) where
  -- The step at which the preparation ends, with what the step answers: the load of the inventory, the
  -- generators, the mutators or Build fails; or none does. A step is executed on the state that the one
  -- before it leaves.
  pub data IsPrepared (objs : List Unstructured) (r : R) : Prepared R → Type 0 where
    load_fails :
        (e : Error) (r1 : R)
        → load_objects_from_inventory a r ≡ (err e, r1)
        → IsPrepared objs r (stopped (type_error e ∷ []) r1)
    generate_fails :
        (remote generated : List Unstructured) (e : Error) (r1 r2 : R)
        → load_objects_from_inventory a r ≡ (ok remote, r1)
        → generate_objects a.generators objs [] r1 ≡ ((some e, generated), r2)
        → IsPrepared objs r (stopped (type_error e ∷ []) r2)
    mutate_fails :
        (remote generated wanted : List Unstructured) (e : Error) (r1 r2 r3 : R)
        → load_objects_from_inventory a r ≡ (ok remote, r1)
        → generate_objects a.generators objs [] r1 ≡ ((none, generated), r2)
        → mutate_objects a.mutators (objs ++ generated) r2 ≡ ((some e, wanted), r3)
        → IsPrepared objs r (stopped (type_error e ∷ []) r3)
    build_fails :
        (remote generated wanted : List Unstructured) (e : Error) (r1 r2 r3 : R)
        → load_objects_from_inventory a r ≡ (ok remote, r1)
        → generate_objects a.generators objs [] r1 ≡ ((none, generated), r2)
        → mutate_objects a.mutators (objs ++ generated) r2 ≡ ((none, wanted), r3)
        → build a.graphs (builder remote wanted) (queue_options options) ≡ some (err e)
        → IsPrepared objs r (stopped (type_error e ∷ []) r3)
    none_fails :
        (remote generated wanted : List Unstructured) (ts : List Task) (r1 r2 r3 : R)
        → load_objects_from_inventory a r ≡ (ok remote, r1)
        → generate_objects a.generators objs [] r1 ≡ ((none, generated), r2)
        → mutate_objects a.mutators (objs ++ generated) r2 ≡ ((none, wanted), r3)
        → build a.graphs (builder remote wanted) (queue_options options) ≡ some (ok ts)
        → IsPrepared objs r (ready ts (new_state a options remote r3))
