-- ===== src/Poller/Workloads/Quiet.antt =====
-- The checks of the workloads do not say that an object is terminating.
use jpl.Base.{Option-cases, ◌≢◌, Bool, false, Option, none, some, ◌||◌, inl, inr, arith}
use jpl.Base.Int.{ℤ, pos}
use jpl.Poller.Result.{status_terminating}
use jpl.Poller.Object.{Deployment, DaemonSet, StatefulSet, any, holds, deref_or}
use jpl.Poller.Workloads.{
  replicas_status_result, is_progressed, deploy_verdict, is_nil, deploy_status_check,
  daemon_set_status_check, rollout_status, replicas_status, stateful_set_status_check,
}
use jpl.Poller.Workloads.Rollout.{replicas_status_result-some, deploy_conditions-any}

deploy_verdict-quiet :
    (deploy : Deployment) (progressing available : Bool)
    → (deploy_verdict deploy progressing available).status ≢ status_terminating
unfolding deploy_verdict
deploy_verdict-quiet deploy progressing available h =
    elim (Option-cases (replicas_status_result deploy)) [
      | inl e ↦ ground arith
      | inr (r, e) ↦ ground (arith, replicas_status_result-some deploy r e)
    ]

-- None of these checks says that an object is terminating.
pub deploy_status_check-quiet :
    (deploy : Deployment) → (deploy_status_check deploy).status ≢ status_terminating
unfolding deploy_status_check
deploy_status_check-quiet deploy h =
    let none_set = is_nil deploy.progress_deadline_seconds in
    ground (
      arith,
      deploy_conditions-any deploy none_set false deploy.conditions,
      deploy_verdict-quiet deploy (none_set || any is_progressed deploy.conditions)
          (any (holds "Available" "True") deploy.conditions),
    )

pub daemon_set_status_check-quiet :
    (ds : DaemonSet) → (daemon_set_status_check ds).status ≢ status_terminating
unfolding daemon_set_status_check
daemon_set_status_check-quiet ds h = ground arith

rollout_status-quiet :
    (wanted : ℤ) (sts : StatefulSet) (partition : Option ℤ)
    → (rollout_status wanted sts partition).status ≢ status_terminating
unfolding rollout_status
rollout_status-quiet wanted sts (some partition) h = ground arith
rollout_status-quiet wanted sts none h = ground arith

replicas_status-quiet :
    (wanted : ℤ) (sts : StatefulSet) → (replicas_status wanted sts).status ≢ status_terminating
unfolding replicas_status
replicas_status-quiet wanted sts h = ground (arith, rollout_status-quiet wanted sts sts.partition)

pub stateful_set_status_check-quiet :
    (sts : StatefulSet) → (stateful_set_status_check sts).status ≢ status_terminating
unfolding stateful_set_status_check
stateful_set_status_check-quiet sts h =
    ground (arith, replicas_status-quiet (deref_or (pos 1) sts.spec_replicas) sts)
