-- ===== src/Poller/Workloads.antt =====
-- pkg/poller/statuschecker.go: the checks of deployments, daemon sets and stateful sets.
pub mod Rollout
pub mod Sets
pub mod Quiet
use jpl.Base.{
  Str, str_discrete, Bool, true, false, List, [], ◌∷◌, Option, none, some, ◌&&◌, not, ite,
  if◌then◌else◌,
}
use jpl.Base.Int.{ℤ, pos, ltb_ℤ}
use jpl.Poller.Result.{
  Result, current_result, in_progress_result, failed_result, Answer, result, failure,
  deployment_deadline_message, deployment_not_progressing_message, deployment_not_available_message,
  deployment_current_message, deployment_few_replicas_message, deployment_updating_replicas_message,
  deployment_deleting_replicas_message, deployment_waiting_replicas_message,
  daemonset_in_progress_message, daemonset_current_message, daemonset_few_replicas_message,
  daemonset_updating_replicas_message, daemonset_waiting_replicas_message,
  stateful_set_on_delete_strategy_message, stateful_set_few_replicas_message,
  stateful_set_waiting_replicas_message, stateful_set_updating_replicas_message,
  stateful_set_deleting_replicas_message, stateful_set_partition_rollout_message,
  stateful_set_partition_complete_message, stateful_set_revision_mismatch_message,
  stateful_set_current_message,
}
use jpl.Poller.Object.{
  Condition, Deployment, DaemonSet, StatefulSet, is_text, holds, deref_or, sub_32,
}

-- The switch of replicasStatusResult, on the replicas that the deployment asks for.
abbrev replicas_switch : ℤ → Deployment → Option Result
replicas_switch wanted deploy =
    if ltb_ℤ deploy.replicas wanted
    then some (in_progress_result (deployment_few_replicas_message deploy.replicas wanted))
    else if ltb_ℤ deploy.updated_replicas wanted
    then some
        (in_progress_result (deployment_updating_replicas_message deploy.updated_replicas wanted))
    else if ltb_ℤ wanted deploy.replicas
    then some
        (in_progress_result (deployment_deleting_replicas_message (sub_32 deploy.replicas wanted)))
    else if ltb_ℤ deploy.available_replicas deploy.updated_replicas
    then some (
        in_progress_result
          (deployment_waiting_replicas_message deploy.available_replicas deploy.updated_replicas))
    else if ltb_ℤ deploy.ready_replicas wanted
    then some
        (in_progress_result (deployment_waiting_replicas_message deploy.ready_replicas wanted))
    else none

-- replicasStatusResult
pub replicas_status_result : Deployment → Option Result
replicas_status_result deploy = replicas_switch (deref_or (pos 1) deploy.spec_replicas) deploy

pub is_deadline_exceeded : Condition → Bool
is_deadline_exceeded c = is_text c.type "Progressing" && is_text c.reason "ProgressDeadlineExceeded"

pub is_progressed : Condition → Bool
is_progressed c =
    is_text c.type "Progressing"
    && (is_text c.reason "NewReplicaSetAvailable" && is_text c.status "True")

-- After the loop of deployStatusCheck, on the two variables that it sets.
pub deploy_verdict : Deployment → Bool → Bool → Result
deploy_verdict deploy is_progressing is_available = elim (replicas_status_result deploy) [
  | some r ↦ r
  | none ↦
      if not is_progressing
      then in_progress_result deployment_not_progressing_message
      else if not is_available
      then in_progress_result deployment_not_available_message
      else current_result (deployment_current_message deploy.replicas)
]

-- The loop of deployStatusCheck, on these variables, and what follows it.
pub deploy_conditions : Deployment → Bool → Bool → List Condition → Result
deploy_conditions deploy is_progressing is_available [] =
    deploy_verdict deploy is_progressing is_available
deploy_conditions deploy is_progressing is_available (c ∷ cs) =
    let progressed = deploy_conditions deploy true is_available cs in
    let available = deploy_conditions deploy is_progressing true cs in
    let rest = deploy_conditions deploy is_progressing is_available cs in
    if is_deadline_exceeded c
    then failed_result deployment_deadline_message
    else if is_progressed c
    then progressed
    else if holds "Available" "True" c
    then available
    else rest

abbrev pub is_nil : Option ℤ → Bool
is_nil none = true
is_nil (some i) = false

-- deployStatusCheck
pub deploy_status_check : Deployment → Result
deploy_status_check deploy =
    deploy_conditions deploy (is_nil deploy.progress_deadline_seconds) false deploy.conditions

-- daemonSetStatusCheck, once the object is converted
pub daemon_set_status_check : DaemonSet → Result
daemon_set_status_check ds =
    let wanted = ds.desired_number_scheduled in
    if ltb_ℤ ds.current_number_scheduled wanted
    then in_progress_result (daemonset_few_replicas_message ds.current_number_scheduled wanted)
    else if ltb_ℤ ds.updated_number_scheduled wanted
    then in_progress_result (daemonset_updating_replicas_message ds.updated_number_scheduled wanted)
    else if ltb_ℤ ds.number_available wanted
    then in_progress_result (daemonset_waiting_replicas_message ds.number_available wanted)
    else if ltb_ℤ ds.number_ready wanted
    then in_progress_result (daemonset_waiting_replicas_message ds.number_ready wanted)
    else current_result (daemonset_current_message wanted)

-- The end of statefulSetStatusCheck, past the tests on the replicas, by the partition.
rollout_status : ℤ → StatefulSet → Option ℤ → Result
rollout_status wanted sts (some partition) =
    if ltb_ℤ sts.updated_replicas (sub_32 wanted partition)
    then in_progress_result
        (stateful_set_partition_rollout_message sts.updated_replicas (sub_32 wanted partition))
    else current_result (stateful_set_partition_complete_message sts.updated_replicas)
rollout_status wanted sts none =
    ite (str_discrete sts.current_revision sts.update_revision)
      (current_result (stateful_set_current_message sts.replicas))
      (in_progress_result stateful_set_revision_mismatch_message)

replicas_status : ℤ → StatefulSet → Result
replicas_status wanted sts =
    if ltb_ℤ sts.replicas wanted
    then in_progress_result (stateful_set_few_replicas_message sts.replicas wanted)
    else if ltb_ℤ sts.ready_replicas wanted
    then in_progress_result (stateful_set_waiting_replicas_message sts.ready_replicas wanted)
    else if ltb_ℤ wanted sts.replicas
    then in_progress_result (stateful_set_deleting_replicas_message (sub_32 sts.replicas wanted))
    else if ltb_ℤ sts.current_replicas wanted
    then in_progress_result (stateful_set_updating_replicas_message sts.current_replicas wanted)
    else rollout_status wanted sts sts.partition

-- statefulSetStatusCheck
pub stateful_set_status_check : StatefulSet → Result
stateful_set_status_check sts =
    if is_text sts.update_strategy "OnDelete"
    then current_result stateful_set_on_delete_strategy_message
    else replicas_status (deref_or (pos 1) sts.spec_replicas) sts
