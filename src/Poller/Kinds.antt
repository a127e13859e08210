-- ===== src/Poller/Kinds.antt =====
-- pkg/poller/statuschecker.go: the checks of CRDs, services, claims, jobs and pods, on the typed
-- values; a case of a loop's switch that returns ends the loop.
pub mod Verdicts
pub mod Quiet
use jpl.Base.{
  Str, codes, Bool, true, false, List, [], ◌∷◌, ◌++◌, Option, none, some, ℕ, zero, suc, ◌+◌, ◌&&◌,
  not, if◌then◌else◌,
}
use jpl.Base.Int.{ℤ, pos, ltb_ℤ, pos_part, neg_part, sub_ℕ}
use jpl.Poller.Result.{
  Result, Message, text, current_result, in_progress_result, failed_result, crd_in_progress_message,
  crd_current_message, service_in_progress_message, current_message, pvc_current_message,
  pvc_in_progress_message, job_current_message, job_suspended_message, job_in_progress_message,
  job_running_message, pod_succeded_message, pod_failed_message, pod_unscheduled_message,
  pod_pending_message, pod_in_progress_message, crashlooping_containers_message, pod_ready_message,
  pod_running_message,
}
use jpl.Poller.Object.{Condition, Service, Job, ContainerStatus, Pod, is_text, holds, deref_or}

-- crdStatusCheck
pub crd_status_check : List Condition → Result
crd_status_check [] = in_progress_result crd_in_progress_message
crd_status_check (c ∷ cs) =
    let rest = crd_status_check cs in
    if holds "NamesAccepted" "False" c
    then failed_result (text c.message)
    else if holds "Established" "True" c
    then current_result crd_current_message
    else if holds "NamesAccepted" "False" c && not (is_text c.reason "Installing")
    then failed_result (text c.message)
    else rest

-- serviceStatusCheck
pub service_status_check : Service → Result
service_status_check service =
    if is_text service.type "LoadBalancer"
    then elim service.ingress [
      | zero ↦ in_progress_result service_in_progress_message
      | suc n ↦ current_result current_message
    ]
    else current_result current_message

-- The phase that is shown: "unknown" for an empty one.
abbrev or_unknown : Str → Str
or_unknown [] = codes "unknown"
or_unknown (c ∷ cs) = c ∷ cs

-- pvcStatusCheck, on the phase
pub pvc_status_check : Str → Result
pvc_status_check phase =
    if is_text (or_unknown phase) "Bound"
    then current_result pvc_current_message
    else in_progress_result (pvc_in_progress_message (or_unknown phase))

abbrev max_ℤ : ℤ → ℤ → ℤ
max_ℤ a b = if ltb_ℤ a b then b else a

job_parallelism : Job → ℤ
job_parallelism job = max_ℤ (deref_or (pos 0) job.parallelism) (pos 1)

pub job_completions : Job → ℤ
job_completions job = max_ℤ (deref_or (pos 0) job.completions) (job_parallelism job)

-- The loop of jobStatusCheck; with none of the conditions it goes on with `started`.
job_conditions : Job → List Condition → Result
job_conditions job [] =
    if job.started
    then in_progress_result (job_running_message job.succeeded job.active job.failed)
    else in_progress_result job_in_progress_message
job_conditions job (c ∷ cs) =
    let rest = job_conditions job cs in
    if holds "Failed" "True" c
    then failed_result (text c.message)
    else if holds "Complete" "True" c
    then current_result (job_current_message job.succeeded (job_completions job))
    else if holds "Suspended" "True" c
    then current_result job_suspended_message
    else rest

pub job_status_check : Job → Result
job_status_check job = job_conditions job job.conditions

-- `creationTime.After(time.Now().Add(unscheduledWindow))`, a window of 30 seconds
pub is_recent : ℤ → ℤ → Bool
is_recent now created = ltb_ℤ (sub_ℕ (pos_part now) (neg_part now + 30000000000)) created

-- The loop over the conditions of a pending pod.
pending_conditions : ℤ → ℤ → List Condition → Result
pending_conditions now created [] = in_progress_result pod_pending_message
pending_conditions now created (c ∷ cs) =
    let rest = pending_conditions now created cs in
    if holds "PodScheduled" "False" c
    then (if is_text c.reason "Unschedulable" && is_recent now created
        then in_progress_result pod_unscheduled_message
        else failed_result (text c.message))
    else rest

pub is_crashing : ContainerStatus → Bool
is_crashing cs = elim cs.waiting [ none ↦ false | some reason ↦ is_text reason "CrashLoopBackOff" ]

crashing_names : List ContainerStatus → List Str
crashing_names [] = []
crashing_names (cs ∷ rest) =
    let names = crashing_names rest in if is_crashing cs then cs.name ∷ names else names

-- crashingContainers
pub crashing_containers : Pod → List Str
crashing_containers pod =
    crashing_names pod.container_statuses ++ crashing_names pod.init_container_statuses

-- A running pod none of whose conditions says that it is ready.
pub not_ready : Pod → Result
not_ready pod = elim (crashing_containers pod) [
  | [] ↦ in_progress_result pod_running_message
  | name ∷ names ↦ failed_result (crashlooping_containers_message (name ∷ names))
]

-- The loop over the conditions of a running pod.
pub running_conditions : Pod → List Condition → Result
running_conditions pod [] = not_ready pod
running_conditions pod (c ∷ cs) =
    let rest = running_conditions pod cs in
    if holds "Ready" "True" c then current_result pod_ready_message else rest

-- podStatusCheck
pub pod_status_check : ℤ → Pod → Result
pod_status_check now pod =
    if is_text pod.phase "Succeeded"
    then current_result pod_succeded_message
    else if is_text pod.phase "Failed"
    then failed_result pod_failed_message
    else if is_text pod.phase "Pending"
    then pending_conditions now pod.creation_time pod.conditions
    else if is_text pod.phase "Running"
    then running_conditions pod pod.conditions
    else in_progress_result pod_in_progress_message
