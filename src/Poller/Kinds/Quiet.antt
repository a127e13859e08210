-- ===== src/Poller/Kinds/Quiet.antt =====
-- The checks of these kinds do not say that an object is terminating.
use jpl.Base.{Str, ◌≢◌, List, [], ◌∷◌, arith}
use jpl.Base.Int.{ℤ}
use jpl.Poller.Result.{status_terminating}
use jpl.Poller.Object.{Condition, Service, Job, Pod}
use jpl.Poller.Kinds.{
  crd_status_check, service_status_check, pvc_status_check, job_status_check, pending_conditions,
  not_ready, pod_status_check,
}
use jpl.Poller.Kinds.Verdicts.{
  crd_status_check-first, job_status_check-first, running_conditions-any,
}

-- None of these checks says that an object is terminating.
pub crd_status_check-quiet :
    (cs : List Condition) → (crd_status_check cs).status ≢ status_terminating
crd_status_check-quiet cs h = ground (arith, crd_status_check-first cs)

pub service_status_check-quiet :
    (service : Service) → (service_status_check service).status ≢ status_terminating
unfolding service_status_check
service_status_check-quiet service h = ground arith

pub pvc_status_check-quiet : (phase : Str) → (pvc_status_check phase).status ≢ status_terminating
unfolding pvc_status_check
pvc_status_check-quiet phase h = ground arith

pub job_status_check-quiet : (job : Job) → (job_status_check job).status ≢ status_terminating
job_status_check-quiet job h = ground (arith, job_status_check-first job)

pending_conditions-quiet :
    (now created : ℤ) (cs : List Condition)
    → (pending_conditions now created cs).status ≢ status_terminating
unfolding pending_conditions
pending_conditions-quiet now created [] h = absurd (cc)
pending_conditions-quiet now created (c ∷ cs) h =
    ground (arith, pending_conditions-quiet now created cs)

not_ready-quiet : (pod : Pod) → (not_ready pod).status ≢ status_terminating
unfolding not_ready
not_ready-quiet pod h = ground arith

pub pod_status_check-quiet :
    (now : ℤ) (pod : Pod) → (pod_status_check now pod).status ≢ status_terminating
unfolding pod_status_check
pod_status_check-quiet now pod h = ground (
  arith,
  pending_conditions-quiet now pod.creation_time pod.conditions,
  running_conditions-any pod pod.conditions,
  not_ready-quiet pod,
)
