-- ===== src/Poller/Result.antt =====
-- pkg/poller/status.go: the result of a check; and the messages of statuschecker.go, each with the
-- arguments of its format.
use jpl.Base.{Str, Option, none, some, List}
use jpl.Base.Int.{ℤ}

pub data Status : Type 0 where
  status_in_progress : Status
  status_failed : Status
  status_terminating : Status
  status_current : Status

pub data Message : Type 0 where
  -- A message that the object carries, or that a custom check makes.
  text : Str → Message
  generation_message : Str → ℤ → ℤ → Message
  deletion_message : Message
  current_message : Message
  crd_in_progress_message : Message
  crd_current_message : Message
  service_in_progress_message : Message
  pvc_current_message : Message
  pvc_in_progress_message : Str → Message
  job_current_message : ℤ → ℤ → Message
  job_suspended_message : Message
  job_in_progress_message : Message
  job_running_message : ℤ → ℤ → ℤ → Message
  pod_succeded_message : Message
  pod_failed_message : Message
  pod_unscheduled_message : Message
  pod_pending_message : Message
  pod_in_progress_message : Message
  crashlooping_containers_message : List Str → Message
  pod_ready_message : Message
  pod_running_message : Message
  deployment_deadline_message : Message
  deployment_not_progressing_message : Message
  deployment_not_available_message : Message
  deployment_current_message : ℤ → Message
  deployment_few_replicas_message : ℤ → ℤ → Message
  deployment_updating_replicas_message : ℤ → ℤ → Message
  deployment_deleting_replicas_message : ℤ → Message
  deployment_waiting_replicas_message : ℤ → ℤ → Message
  daemonset_in_progress_message : Message
  daemonset_current_message : ℤ → Message
  daemonset_few_replicas_message : ℤ → ℤ → Message
  daemonset_updating_replicas_message : ℤ → ℤ → Message
  daemonset_waiting_replicas_message : ℤ → ℤ → Message
  stateful_set_on_delete_strategy_message : Message
  stateful_set_few_replicas_message : ℤ → ℤ → Message
  stateful_set_waiting_replicas_message : ℤ → ℤ → Message
  stateful_set_updating_replicas_message : ℤ → ℤ → Message
  stateful_set_deleting_replicas_message : ℤ → Message
  stateful_set_partition_rollout_message : ℤ → ℤ → Message
  stateful_set_partition_complete_message : ℤ → Message
  stateful_set_revision_mismatch_message : Message
  stateful_set_current_message : ℤ → Message

pub record Result : Type 0 where
  pub status : Status
  pub message : Message

abbrev pub current_result : Message → Result
current_result message = record { status = status_current; message = message }

abbrev pub in_progress_result : Message → Result
in_progress_result message = record { status = status_in_progress; message = message }

abbrev pub terminating_result : Message → Result
terminating_result message = record { status = status_terminating; message = message }

abbrev pub failed_result : Message → Result
failed_result message = record { status = status_failed; message = message }

-- What a check returns: the pair of a `*Result` and an error, each nil or not; or it panics.
pub data Answer : Type 0 where
  answer : Option Result → Option Str → Answer
  panic : Answer

abbrev pub result : Result → Answer
result r = answer (some r) none

abbrev pub failure : Str → Answer
failure error = answer none (some error)

-- `nil, nil`
abbrev pub no_answer : Answer
no_answer = answer none none

-- `if result, err := first; result != nil || err != nil { return result, err }` and what follows.
abbrev pub or_else : Answer → Answer → Answer
or_else (answer none none) next = next
or_else first next = first
