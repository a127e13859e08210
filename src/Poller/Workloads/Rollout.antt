-- ===== src/Poller/Workloads/Rollout.antt =====
-- When the check of a deployment answers that the resource is current.
use jpl.Base.{
  Option-cases, Bool-cases, codes, ◌≡◌, ◌≢◌, refl, Bool, true, false, List, [], ◌∷◌, none, some,
  ◌||◌, ◌↔◌, inl, inr, if◌then◌else◌, arith,
}
use jpl.Base.Int.{ℤ, pos, ltb_ℤ}
use jpl.Poller.Result.{
  Result, status_current, status_in_progress, failed_result, deployment_deadline_message,
}
use jpl.Poller.Object.{Condition, Deployment, is_text_unique, any, holds, deref_or}
use jpl.Poller.Workloads.{
  replicas_status_result, is_deadline_exceeded, is_progressed, deploy_verdict, deploy_conditions,
  replicas_switch, is_nil, deploy_status_check,
}

abbrev pub AtMost : ℤ → ℤ → Type 0
AtMost a b = ltb_ℤ b a ≡ false

-- One condition does not say two things: its type is one.
progressed_not_available :
    (c : Condition) → is_progressed c ≡ true → holds "Available" "True" c ≡ false
unfolding is_progressed
progressed_not_available c p =
    ground (arith, is_text_unique c.type "Progressing" "Available", different)
  where
    different : codes "Progressing" ≢ codes "Available"
    different = cc

-- The loop of deployStatusCheck: a condition of an exceeded deadline fails the deployment, wherever
-- it stands; without one, each variable is set by any condition that sets it.
pub deploy_conditions-any :
    (deploy : Deployment) (progressing available : Bool) (cs : List Condition)
    → deploy_conditions deploy progressing available cs ≡ (
        if any is_deadline_exceeded cs
        then failed_result deployment_deadline_message
        else deploy_verdict deploy
            (progressing || any is_progressed cs)
            (available || any (holds "Available" "True") cs))
unfolding deploy_conditions
deploy_conditions-any deploy progressing available [] = ground arith
deploy_conditions-any deploy progressing available (c ∷ cs) = ground (
  arith,
  deploy_conditions-any deploy true available cs,
  deploy_conditions-any deploy progressing true cs,
  deploy_conditions-any deploy progressing available cs,
  progressed_not_available c,
)

-- A deployment whose rollout is over: no condition says that its deadline has passed, one says that
-- it progressed or it has no deadline, one says that it is available; and its replicas are as many
-- as it asks for, which is 1 where it does not say, all updated, available and ready.
pub record IsRolledOut (deploy : Deployment) : Type 0 where
  pub in_time : any is_deadline_exceeded deploy.conditions ≡ false
  pub progressed :
      (is_nil deploy.progress_deadline_seconds || any is_progressed deploy.conditions) ≡ true
  pub available : any (holds "Available" "True") deploy.conditions ≡ true
  pub exact : deploy.replicas ≡ deref_or (pos 1) deploy.spec_replicas
  pub all_updated : AtMost (deref_or (pos 1) deploy.spec_replicas) deploy.updated_replicas
  pub updated_available : AtMost deploy.updated_replicas deploy.available_replicas
  pub all_ready : AtMost (deref_or (pos 1) deploy.spec_replicas) deploy.ready_replicas

abbrev AreExact : ℤ → Deployment → Type 0
AreExact wanted deploy =
    ((deploy.replicas ≡ wanted) × AtMost wanted deploy.updated_replicas)
    × (AtMost deploy.updated_replicas deploy.available_replicas
        × AtMost wanted deploy.ready_replicas)

pub antisym : (a b : ℤ) → AtMost a b → AtMost b a → a ≡ b
antisym a b p q = ground arith

replicas_switch-none :
    (wanted : ℤ) (deploy : Deployment)
    → (replicas_switch wanted deploy ≡ none) ↔ AreExact wanted deploy
replicas_switch-none wanted deploy =
    (λ h. ground (arith, antisym deploy.replicas wanted), λ ((p, q), (r, s)). ground arith)

replicas_switch-some :
    (wanted : ℤ) (deploy : Deployment) (r : Result)
    → replicas_switch wanted deploy ≡ some r
    → r.status ≡ status_in_progress
replicas_switch-some wanted deploy r h = ground arith

pub replicas_status_result-some :
    (deploy : Deployment) (r : Result)
    → replicas_status_result deploy ≡ some r
    → r.status ≡ status_in_progress
unfolding replicas_status_result
replicas_status_result-some deploy =
    replicas_switch-some (deref_or (pos 1) deploy.spec_replicas) deploy

deploy_verdict-current :
    (deploy : Deployment) (progressing available : Bool)
    → ((deploy_verdict deploy progressing available).status ≡ status_current)
      ↔ ((replicas_status_result deploy ≡ none) × ((progressing ≡ true) × (available ≡ true)))
unfolding deploy_verdict
deploy_verdict-current deploy progressing available =
    elim (Option-cases (replicas_status_result deploy)) [
      | inl e ↦ (λ h. ground arith, λ (p, q). ground arith)
      | inr (r, e) ↦ (
        λ h. absurd (ground (arith, replicas_status_result-some deploy r e)),
        λ (p, q). ground arith,
      )
    ]

deploy_conditions-current :
    (deploy : Deployment) (progressing available : Bool) (cs : List Condition)
    → ((deploy_conditions deploy progressing available cs).status ≡ status_current) ↔ (
        (any is_deadline_exceeded cs ≡ false)
        × ((replicas_status_result deploy ≡ none)
            × (((progressing || any is_progressed cs) ≡ true)
                × ((available || any (holds "Available" "True") cs) ≡ true))))
deploy_conditions-current deploy progressing available cs =
    let verdict =
      deploy_verdict-current deploy (progressing || any is_progressed cs)
        (available || any (holds "Available" "True") cs) in
    elim (Bool-cases (any is_deadline_exceeded cs)) [
      | inl e ↦
          rw (deploy_conditions-any deploy progressing available cs, e)
            (λ h. absurd (cc), λ (p, q). absurd (cc))
      | inr e ↦
          rw (deploy_conditions-any deploy progressing available cs, e)
            (λ h. (refl, verdict.0 h), λ (p, q). verdict.1 q)
    ]

-- A deployment is current exactly when its rollout is over.
pub deploy_status_check-current :
    (deploy : Deployment)
    → ((deploy_status_check deploy).status ≡ status_current) ↔ IsRolledOut deploy
unfolding deploy_status_check replicas_status_result
deploy_status_check-current deploy =
    let verdict =
      deploy_conditions-current deploy (is_nil deploy.progress_deadline_seconds) false
        deploy.conditions in
    let replicas = replicas_switch-none (deref_or (pos 1) deploy.spec_replicas) deploy in
    (
      λ h.
          let (in_time, (counted, (progressed, available))) = verdict.0 h in
          let ((exact, all_updated), (updated_available, all_ready)) = replicas.0 counted in
          record {
            in_time = in_time;
            progressed = progressed;
            available = available;
            exact = exact;
            all_updated = all_updated;
            updated_available = updated_available;
            all_ready = all_ready;
          },
      λ h. verdict.1 (
        h.in_time,
        (
          replicas.1 ((h.exact, h.all_updated), (h.updated_available, h.all_ready)),
          (h.progressed, h.available),
        ),
      ),
    )
