-- ===== src/Poller/Check/Precedence.antt =====
-- When statusCheck says that a deployment is current.
use jpl.Base.{ap, str_discrete, ◌≡◌, ◌≢◌, refl, false, Option, none, some, ◌↔◌, if_pos, if_neg}
use jpl.Base.Int.{ℤ, ℤ_discrete}
use jpl.Resource.Object.{Unstructured, group_kind_discrete, group_kind_of}
use jpl.Poller.Result.{
  Status, Answer, answer, panic, result, no_answer, or_else, status_current, in_progress_result,
  generation_message,
}
use jpl.Poller.Object.{Deployment, converted, Nested, missing, present, mistyped, Api}
use jpl.Poller.Workloads.{deploy_status_check}
use jpl.Poller.Workloads.Rollout.{IsRolledOut, deploy_status_check-current}
use jpl.Poller.Check.{
  CustomStatusCheckers, deploy_gk, generation_check, check_generations, core_check,
  check_core_resources, status_check,
}

-- The status that an answer gives, where it has a result.
abbrev pub status_of : Answer → Option Status
status_of (answer (some r) error) = some r.status
status_of (answer none error) = none
status_of panic = none

module _ (api : Api) where
  -- The check reaches the checks of kinds where the object is not deleted, and its controller has
  -- observed its generation or says nothing of it.
  abbrev pub IsObserved : Unstructured → Nested ℤ → Type 0
  IsObserved object missing = Unit
  IsObserved object (present observed) = observed ≡ api.generation object
  IsObserved object (mistyped error) = ⊥

  core_check-deployment :
      (object : Unstructured) (deploy : Deployment)
      → api.to_deployment object ≡ converted deploy
      → core_check api deploy_gk object ≡ result (deploy_status_check deploy)
  unfolding core_check group_kind_discrete str_discrete
  core_check-deployment object deploy conversion = rw conversion refl

  generation_check-observed :
      (object : Unstructured) (observed : ℤ)
      → observed ≡ api.generation object
      → generation_check api object (present observed) ≡ no_answer
  unfolding generation_check
  generation_check-observed object observed h = if_pos (ℤ_discrete observed _) h _ _

  generation_check-unobserved :
      (object : Unstructured) (observed : ℤ)
      → observed ≢ api.generation object
      → generation_check api object (present observed)
        ≡ result (
            in_progress_result
              (generation_message object.gvk.kind (api.generation object) observed))
  unfolding generation_check
  generation_check-unobserved object observed h = if_neg (ℤ_discrete observed _) h _ _

  generation_check-deployment :
      (object : Unstructured) (deploy : Deployment) (observed : Nested ℤ)
      → (status_of
            (or_else (generation_check api object observed) (result (deploy_status_check deploy)))
          ≡ some status_current)
        ↔ (IsObserved object observed × IsRolledOut deploy)
  unfolding generation_check
  generation_check-deployment object deploy missing = (
    λ h. (tt, (deploy_status_check-current deploy).0 (cc)),
    λ h. ap some ((deploy_status_check-current deploy).1 h.1),
  )
  generation_check-deployment object deploy (mistyped error) = (λ h. absurd (cc), λ h. absurd h.0)
  generation_check-deployment object deploy (present observed) =
      elim (ℤ_discrete observed (api.generation object)) [
        | yes p ↦ rw (generation_check-observed object observed p) (
          λ h. (p, (deploy_status_check-current deploy).0 (cc)),
          λ h. ap some ((deploy_status_check-current deploy).1 h.1),
        )
        | no p ↦
            rw (generation_check-unobserved object observed p)
              (λ h. absurd (cc), λ h. absurd (p h.0))
      ]

  -- An object that is a deployment and is not deleted is current exactly when its controller has
  -- observed its generation, or says nothing of it, and the deployment's rollout is over; whatever
  -- custom checks there are.
  pub status_check-deployment :
      (checkers : CustomStatusCheckers) (object : Unstructured) (deploy : Deployment)
      → api.is_deleted object ≡ false
      → group_kind_of object ≡ deploy_gk
      → api.to_deployment object ≡ converted deploy
      → (status_of (status_check api checkers object) ≡ some status_current)
        ↔ (IsObserved object (api.observed_generation object) × IsRolledOut deploy)
  unfolding status_check check_generations check_core_resources
  status_check-deployment checkers object deploy alive kind conversion =
      rw
        (
          alive,
          ap (λ gk. core_check api gk object) kind,
          core_check-deployment object deploy conversion,
        )
        (generation_check-deployment object deploy (api.observed_generation object))
