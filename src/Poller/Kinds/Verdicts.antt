-- ===== src/Poller/Kinds/Verdicts.antt =====
-- What decides the verdicts on CRDs, claims, jobs and pods: the first condition of some types, or any.
use jpl.Base.{
  ℕ, ap, ◌++◌, codes, Str, ◌≡◌, ◌≢◌, refl, Bool, true, false, List, [], ◌∷◌, Option, none, some,
  ◌||◌, ◌↔◌, ◌⊎◌, inl, inr, if◌then◌else◌, arith,
}
use jpl.Base.Int.{ℤ}
use jpl.Poller.Result.{Status, status_current, status_failed, status_in_progress}
use jpl.Poller.Object.{Condition, Job, ContainerStatus, Pod, is_text, is_text_unique, any, holds}
use jpl.Poller.Kinds.{
  crd_status_check, job_conditions, job_status_check, pending_conditions, crashing_containers,
  is_crashing, crashing_names, not_ready, running_conditions, pod_status_check,
}

-- The first condition that passes the test.
abbrev pub first : (Condition → Bool) → List Condition → Option Condition
first test [] = none
first test (c ∷ cs) = let rest = first test cs in if test c then some c else rest

-- A condition that decides on a CRD: its names are refused, or it is established.
abbrev pub decides_crd : Condition → Bool
decides_crd c = holds "NamesAccepted" "False" c || holds "Established" "True" c

established_not_refused :
    (c : Condition) → holds "Established" "True" c ≡ true → holds "NamesAccepted" "False" c ≡ false
established_not_refused c p =
    ground (arith, is_text_unique c.type "NamesAccepted" "Established", different)
  where
    different : codes "NamesAccepted" ≢ codes "Established"
    different = cc

abbrev crd_verdict : Option Condition → Status
crd_verdict none = status_in_progress
crd_verdict (some c) = if holds "Established" "True" c then status_current else status_failed

-- A CRD is current where the first condition that decides on it says that it is established, failed
-- where that condition says that its names are refused, in progress where no condition decides.
pub crd_status_check-first :
    (cs : List Condition) → (crd_status_check cs).status ≡ crd_verdict (first decides_crd cs)
unfolding crd_status_check
crd_status_check-first [] = refl
crd_status_check-first (c ∷ cs) =
    ground (arith, crd_status_check-first cs, established_not_refused c)

abbrev pub decides_job : Condition → Bool
decides_job c = holds "Failed" "True" c || (holds "Complete" "True" c || holds "Suspended" "True" c)

abbrev job_verdict : Option Condition → Status
job_verdict none = status_in_progress
job_verdict (some c) = if holds "Failed" "True" c then status_failed else status_current

job_conditions-first :
    (job : Job) (cs : List Condition)
    → (job_conditions job cs).status ≡ job_verdict (first decides_job cs)
unfolding job_conditions
job_conditions-first job [] = ground arith
job_conditions-first job (c ∷ cs) = ground (arith, job_conditions-first job cs)

-- A job is failed or current as the first of its conditions says that reports a failure, a completion
-- or a suspension, the last two being current; without such a condition it is in progress.
pub job_status_check-first :
    (job : Job) → (job_status_check job).status ≡ job_verdict (first decides_job job.conditions)
unfolding job_status_check
job_status_check-first job = job_conditions-first job job.conditions

pub running_conditions-any :
    (pod : Pod) (cs : List Condition)
    → (running_conditions pod cs).status
      ≡ (if any (holds "Ready" "True") cs then status_current else (not_ready pod).status)
unfolding running_conditions
running_conditions-any pod [] = refl
running_conditions-any pod (c ∷ cs) = ground (arith, running_conditions-any pod cs)

pending_conditions-not_current :
    (now created : ℤ) (cs : List Condition)
    → (pending_conditions now created cs).status ≢ status_current
unfolding pending_conditions
pending_conditions-not_current now created [] h = absurd (cc)
pending_conditions-not_current now created (c ∷ cs) h =
    ground (arith, pending_conditions-not_current now created cs)

not_ready-not_current : (pod : Pod) → (not_ready pod).status ≢ status_current
unfolding not_ready
not_ready-not_current pod h = ground arith

abbrev head_code : Str → ℕ
head_code [] = 0
head_code (c ∷ cs) = c

running_not_other :
    (phase : Str)
    → is_text phase "Running" ≡ true
    → (is_text phase "Succeeded" ≡ false)
      × ((is_text phase "Failed" ≡ false) × (is_text phase "Pending" ≡ false))
running_not_other phase p = (
  ground (arith, is_text_unique phase "Running" "Succeeded", succeeded),
  (
    ground (arith, is_text_unique phase "Running" "Failed", failed),
    ground (arith, is_text_unique phase "Running" "Pending", pending),
  ),
)
  where
    succeeded : codes "Running" ≢ codes "Succeeded"
    succeeded = cc

    failed : codes "Running" ≢ codes "Failed"
    failed = cc

    pending : codes "Running" ≢ codes "Pending"
    pending e = omega (arith, ap head_code e)

-- A pod is current exactly when it has succeeded, or it runs and a condition says that it is ready.
pub pod_status_check-current :
    (now : ℤ) (pod : Pod)
    → ((pod_status_check now pod).status ≡ status_current) ↔ (
        (is_text pod.phase "Succeeded" ≡ true)
        ⊎ ((is_text pod.phase "Running" ≡ true)
            × (any (holds "Ready" "True") pod.conditions ≡ true)))
unfolding pod_status_check
pod_status_check-current now pod = (
  λ h. ground (
    arith,
    pending_conditions-not_current now pod.creation_time pod.conditions,
    running_conditions-any pod pod.conditions,
    not_ready-not_current pod,
  ),
  λ c. elim c [
    | inl e ↦ ground arith
    | inr (running, ready) ↦
        ground
          (arith, running_not_other pod.phase running, running_conditions-any pod pod.conditions)
  ],
)

abbrev pub any_crashing : List ContainerStatus → Bool
any_crashing [] = false
any_crashing (cs ∷ rest) = is_crashing cs || any_crashing rest

crashing_names-nil :
    (cs : List ContainerStatus) → (crashing_names cs ≡ []) ↔ (any_crashing cs ≡ false)
unfolding crashing_names
crashing_names-nil [] = (λ h. refl, λ h. refl)
crashing_names-nil (c ∷ cs) =
    (λ h. ground (arith, (crashing_names-nil cs).0), λ h. ground (arith, (crashing_names-nil cs).1))

append_nils : (xs ys : List Str) → xs ++ ys ≡ [] → (xs ≡ []) × (ys ≡ [])
append_nils [] ys h = (refl, h)
append_nils (x ∷ xs) ys h = absurd (cc)

crashing_containers-nil :
    (pod : Pod)
    → (crashing_containers pod ≡ [])
      ↔ ((any_crashing pod.container_statuses || any_crashing pod.init_container_statuses) ≡ false)
unfolding crashing_containers
crashing_containers-nil pod = (
  λ h. ground (
    arith,
    (crashing_names-nil pod.container_statuses).0,
    (crashing_names-nil pod.init_container_statuses).0,
    append_nils (crashing_names pod.container_statuses) _ h,
  ),
  λ h.
      rw
        (
          (crashing_names-nil pod.container_statuses).1 (ground arith),
          (crashing_names-nil pod.init_container_statuses).1 (ground arith),
        )
        refl,
)

not_ready-failed :
    (pod : Pod)
    → ((not_ready pod).status ≡ status_failed)
      ↔ ((any_crashing pod.container_statuses || any_crashing pod.init_container_statuses) ≡ true)
unfolding not_ready
not_ready-failed pod = (
  λ h. ground (arith, (crashing_containers-nil pod).1),
  λ h. ground (arith, (crashing_containers-nil pod).0),
)

-- A pod that runs is failed exactly when no condition says that it is ready and one of its containers
-- or init containers waits in CrashLoopBackOff.
pub pod_status_check-failed :
    (now : ℤ) (pod : Pod)
    → is_text pod.phase "Running" ≡ true
    → ((pod_status_check now pod).status ≡ status_failed) ↔ (
        (any (holds "Ready" "True") pod.conditions ≡ false)
        × ((any_crashing pod.container_statuses || any_crashing pod.init_container_statuses)
            ≡ true))
unfolding pod_status_check
pod_status_check-failed now pod running = (
  λ h. ground (
    arith,
    running_not_other pod.phase running,
    running_conditions-any pod pod.conditions,
    (not_ready-failed pod).0,
  ),
  λ (unready, crashing). ground (
    arith,
    running_not_other pod.phase running,
    running_conditions-any pod pod.conditions,
    (not_ready-failed pod).1 crashing,
  ),
)
