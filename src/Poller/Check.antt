-- ===== src/Poller/Check.antt =====
-- pkg/poller/statuschecker.go: statusCheck, the chain of all checks of an object.
pub mod Precedence
pub mod Terminating
use jpl.Base.{Str, codes, Bool, true, false, List, [], ◌∷◌, Option, none, some, ite, if◌then◌else◌}
use Prim.Native.String.{String}
use jpl.Base.Int.{ℤ, ℤ_discrete}
use jpl.Base.Maps.{get}
use jpl.Resource.Object.{
  Unstructured, GroupKind, group_kind_discrete, group_kind_of, crd_gk, service_gk,
}
use jpl.Poller.Result.{
  Result, text, Answer, answer, panic, result, failure, no_answer, or_else, current_result,
  in_progress_result, failed_result, terminating_result, deletion_message, generation_message,
  current_message, daemonset_in_progress_message,
}
use jpl.Poller.Object.{
  Condition, Converted, converted, malformed, Nested, missing, present, mistyped, ConditionData,
  not_a_map, not_a_condition, condition, Api, is_text, holds,
}
use jpl.Poller.Kinds.{
  crd_status_check, service_status_check, pvc_status_check, job_status_check, pod_status_check,
}
use jpl.Poller.Workloads.{deploy_status_check, daemon_set_status_check, stateful_set_status_check}

abbrev kind_in : String → String → GroupKind
kind_in group kind = record { group = codes group; kind = codes kind }

abbrev pub pvc_gk : GroupKind
pvc_gk = kind_in "" "PersistentVolumeClaim"

abbrev pub pod_gk : GroupKind
pod_gk = kind_in "" "Pod"

abbrev pub job_gk : GroupKind
job_gk = kind_in "batch" "Job"

abbrev pub deploy_gk : GroupKind
deploy_gk = kind_in "apps" "Deployment"

abbrev pub ds_gk : GroupKind
ds_gk = kind_in "apps" "DaemonSet"

abbrev pub sts_gk : GroupKind
sts_gk = kind_in "apps" "StatefulSet"

-- A check of the typed value, or the error of the conversion.
abbrev pub typed : {A : Type 0} → (A → Result) → Converted A → Answer
typed check (converted a) = result (check a)
typed check (malformed error) = failure error

-- The cases of the switch for one condition that return.
condition_result : Condition → Option Result
condition_result c =
    if is_text c.type "Ready"
    then (if is_text c.status "True"
        then some (current_result current_message)
        else if is_text c.status "False"
        then some (in_progress_result (text c.message))
        else if is_text c.status "Unknown"
        then some (in_progress_result (text c.message))
        else none)
    else if is_text c.type "Reconciling"
    then (if is_text c.status "True" then some (in_progress_result (text c.message)) else none)
    else if is_text c.type "Stalled"
    then (if is_text c.status "True" then some (failed_result (text c.message)) else none)
    else none

-- The loop of checkStatusConditions: the type assertion on an element that is not a map panics.
status_conditions : List ConditionData → Answer
status_conditions [] = no_answer
status_conditions (not_a_map ∷ cs) = panic
status_conditions (not_a_condition ∷ cs) = status_conditions cs
status_conditions (condition c ∷ cs) = elim (condition_result c) [
  | some r ↦ result r
  | none ↦ status_conditions cs
]

-- The list of conditions, where it is found.
abbrev conditions_check : Nested (List ConditionData) → Answer
conditions_check missing = no_answer
conditions_check (mistyped error) = failure error
conditions_check (present cs) = status_conditions cs

-- `customCheckers`, by group and kind
abbrev pub CustomStatusCheckers : Type 0
CustomStatusCheckers = List (GroupKind × (Unstructured → Answer))

module _ (api : Api) where
  -- checkGenerations, by the observed generation
  generation_check : Unstructured → Nested ℤ → Answer
  generation_check object missing = no_answer
  generation_check object (mistyped error) = failure error
  generation_check object (present observed) =
      ite (ℤ_discrete observed (api.generation object)) no_answer (
        result (
          in_progress_result (generation_message object.gvk.kind (api.generation object) observed)))

  pub check_generations : Unstructured → Answer
  check_generations object = generation_check object (api.observed_generation object)

  -- checkStatusConditions
  pub check_status_conditions : Unstructured → Answer
  check_status_conditions object = conditions_check (api.conditions object)

  -- daemonSetStatusCheck, by the observed generation
  daemon_set_observed : Unstructured → Nested ℤ → Answer
  daemon_set_observed object (mistyped error) = failure error
  daemon_set_observed object missing = result (in_progress_result daemonset_in_progress_message)
  daemon_set_observed object (present observed) =
      typed daemon_set_status_check (api.to_daemon_set object)

  pub daemon_set_check : Unstructured → Answer
  daemon_set_check object = daemon_set_observed object (api.observed_generation object)

  -- The switch of checkCoreResources.
  core_check : GroupKind → Unstructured → Answer
  core_check gk object =
      ite (group_kind_discrete gk crd_gk) (typed crd_status_check (api.to_crd object)) (
        ite (group_kind_discrete gk service_gk) (typed service_status_check (api.to_service object))
          (ite (group_kind_discrete gk pvc_gk) (typed pvc_status_check (api.to_pvc object)) (
            ite (group_kind_discrete gk job_gk) (typed job_status_check (api.to_job object)) (
              ite (group_kind_discrete gk pod_gk)
                (typed (pod_status_check api.now) (api.to_pod object))
                (ite (group_kind_discrete gk deploy_gk)
                  (typed deploy_status_check (api.to_deployment object))
                  (ite (group_kind_discrete gk ds_gk) (daemon_set_check object) (
                    ite (group_kind_discrete gk sts_gk)
                      (typed stateful_set_status_check (api.to_stateful_set object))
                      no_answer)))))))

  -- checkCoreResources
  pub check_core_resources : Unstructured → Answer
  check_core_resources object = core_check (group_kind_of object) object

  -- The custom check of the kind, or the conditions and, without an answer, current.
  pub check_custom_resources : CustomStatusCheckers → Unstructured → Answer
  check_custom_resources checkers object =
      elim (get group_kind_discrete (group_kind_of object) checkers) [
        | some check ↦ check object
        | none ↦ or_else (check_status_conditions object) (result (current_result current_message))
      ]

  -- statusCheck
  pub status_check : CustomStatusCheckers → Unstructured → Answer
  status_check checkers object =
      if api.is_deleted object
      then result (terminating_result deletion_message)
      else or_else (check_generations object)
          (or_else (check_core_resources object) (check_custom_resources checkers object))
