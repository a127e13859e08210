-- ===== src/Poller/Workloads/Sets.antt =====
-- When a daemon set and a stateful set are current.
use jpl.Base.{Bool-cases, ◌≡◌, refl, true, Option, none, some, ◌↔◌, ◌⊎◌, inl, inr, arith}
use jpl.Base.Int.{ℤ, pos}
use jpl.Poller.Result.{status_current}
use jpl.Poller.Object.{DaemonSet, StatefulSet, is_text, deref_or, sub_32}
use jpl.Poller.Workloads.{
  daemon_set_status_check, rollout_status, replicas_status, stateful_set_status_check,
}
use jpl.Poller.Workloads.Rollout.{AtMost, antisym}

-- A daemon set is current exactly when the desired number is scheduled, updated, available and ready.
pub daemon_set_status_check-current :
    (ds : DaemonSet)
    → ((daemon_set_status_check ds).status ≡ status_current) ↔ (
        (AtMost ds.desired_number_scheduled ds.current_number_scheduled
          × AtMost ds.desired_number_scheduled ds.updated_number_scheduled)
        × (AtMost ds.desired_number_scheduled ds.number_available
            × AtMost ds.desired_number_scheduled ds.number_ready))
unfolding daemon_set_status_check
daemon_set_status_check-current ds = (λ h. ground arith, λ ((p, q), (r, s)). ground arith)

-- The last test of a stateful set: the partition's share is updated or, without a partition, the
-- revisions agree.
abbrev pub HasRolled : ℤ → StatefulSet → Option ℤ → Type 0
HasRolled wanted sts (some partition) = AtMost (sub_32 wanted partition) sts.updated_replicas
HasRolled wanted sts none = sts.current_revision ≡ sts.update_revision

-- A stateful set whose replicas are as many as it asks for, all ready and current.
pub record IsSettled (sts : StatefulSet) : Type 0 where
  pub exact : sts.replicas ≡ deref_or (pos 1) sts.spec_replicas
  pub all_ready : AtMost (deref_or (pos 1) sts.spec_replicas) sts.ready_replicas
  pub all_current : AtMost (deref_or (pos 1) sts.spec_replicas) sts.current_replicas
  pub rolled : HasRolled (deref_or (pos 1) sts.spec_replicas) sts sts.partition

rollout_status-current :
    (wanted : ℤ) (sts : StatefulSet) (partition : Option ℤ)
    → ((rollout_status wanted sts partition).status ≡ status_current)
      ↔ HasRolled wanted sts partition
unfolding rollout_status
rollout_status-current wanted sts (some partition) = (λ h. ground arith, λ h. ground arith)
rollout_status-current wanted sts none = (λ h. ground arith, λ h. ground arith)

replicas_status-current :
    (wanted : ℤ) (sts : StatefulSet)
    → ((replicas_status wanted sts).status ≡ status_current) ↔ (
        ((sts.replicas ≡ wanted) × AtMost wanted sts.ready_replicas)
        × (AtMost wanted sts.current_replicas
            × ((rollout_status wanted sts sts.partition).status ≡ status_current)))
unfolding replicas_status
replicas_status-current wanted sts =
    (λ h. ground (arith, antisym sts.replicas wanted), λ ((p, q), (r, s)). ground arith)

-- A stateful set is current exactly when it is updated on delete only, or it is settled.
pub stateful_set_status_check-current :
    (sts : StatefulSet)
    → ((stateful_set_status_check sts).status ≡ status_current)
      ↔ ((is_text sts.update_strategy "OnDelete" ≡ true) ⊎ IsSettled sts)
unfolding stateful_set_status_check
stateful_set_status_check-current sts =
    let wanted = deref_or (pos 1) sts.spec_replicas in
    let counted = replicas_status-current wanted sts in
    let rolled = rollout_status-current wanted sts sts.partition in
    elim (Bool-cases (is_text sts.update_strategy "OnDelete")) [
      | inl e ↦ rw e (λ h. inl refl, λ h. refl)
      | inr e ↦ rw e (
        λ h.
            let ((exact, all_ready), (all_current, over)) = counted.0 h in
            inr (record {
              exact = exact;
              all_ready = all_ready;
              all_current = all_current;
              rolled = rolled.0 over;
            }),
        λ c. elim c [
          | inl p ↦ absurd (cc)
          | inr h ↦ counted.1 ((h.exact, h.all_ready), (h.all_current, rolled.1 h.rolled))
        ],
      )
    ]
