-- ===== src/Poller/Check/Terminating.antt =====
-- When statusCheck says that an object is terminating.
use jpl.Base.{
  subst, Option-cases, Bool-cases, ◌≡◌, ◌≢◌, refl, true, List, [], ◌∷◌, Option, none, some, ◌↔◌,
  ◌⊎◌, inl, inr, ite, arith, All,
}
use jpl.Base.Int.{ℤ, ℤ_discrete}
use jpl.Base.Maps.{get}
use jpl.Resource.Object.{
  Unstructured, GroupKind, group_kind_discrete, group_kind_of, crd_gk, service_gk,
}
use jpl.Poller.Result.{Result, Answer, answer, panic, or_else, status_terminating}
use jpl.Poller.Object.{
  Condition, Converted, converted, malformed, Nested, missing, present, mistyped, ConditionData,
  not_a_map, not_a_condition, condition, Api,
}
use jpl.Poller.Kinds.{
  crd_status_check, service_status_check, pvc_status_check, job_status_check, pod_status_check,
}
use jpl.Poller.Kinds.Quiet.{
  crd_status_check-quiet, service_status_check-quiet, pvc_status_check-quiet,
  job_status_check-quiet, pod_status_check-quiet,
}
use jpl.Poller.Workloads.{deploy_status_check, daemon_set_status_check, stateful_set_status_check}
use jpl.Poller.Workloads.Quiet.{
  deploy_status_check-quiet, daemon_set_status_check-quiet, stateful_set_status_check-quiet,
}
use jpl.Poller.Check.{
  CustomStatusCheckers, deploy_gk, pvc_gk, job_gk, pod_gk, ds_gk, sts_gk, typed, conditions_check,
  status_conditions, condition_result, generation_check, check_generations, core_check,
  daemon_set_observed, daemon_set_check, check_core_resources, check_status_conditions,
  check_custom_resources, status_check,
}
use jpl.Poller.Check.Precedence.{status_of}

-- An answer that does not say that the object is terminating.
abbrev pub IsQuiet : Answer → Type 0
IsQuiet a = status_of a ≢ some status_terminating

typed-IsQuiet :
    {A : Type 0} (check : A → Result)
    → ((a : A) → (check a).status ≢ status_terminating)
    → (c : Converted A) → IsQuiet (typed check c)
typed-IsQuiet check quiet (converted a) h = quiet a (cc)
typed-IsQuiet check quiet (malformed error) h = absurd (cc)

ite-IsQuiet : {P : Type 0} (d : Dec P) (x y : Answer) → IsQuiet x → IsQuiet y → IsQuiet (ite d x y)
ite-IsQuiet (yes p) x y hx hy = hx
ite-IsQuiet (no p) x y hx hy = hy

or_else-IsQuiet : (x y : Answer) → IsQuiet x → IsQuiet y → IsQuiet (or_else x y)
or_else-IsQuiet (answer none none) y hx hy = hy
or_else-IsQuiet (answer none (some error)) y hx hy = hx
or_else-IsQuiet (answer (some r) error) y hx hy = hx
or_else-IsQuiet panic y hx hy = hx

condition_result-quiet :
    (c : Condition) (r : Result) → condition_result c ≡ some r → r.status ≢ status_terminating
unfolding condition_result
condition_result-quiet c r e h = ground arith

status_conditions-IsQuiet : (cs : List ConditionData) → IsQuiet (status_conditions cs)
unfolding status_conditions
status_conditions-IsQuiet [] = λ h. absurd (cc)
status_conditions-IsQuiet (not_a_map ∷ cs) = λ h. absurd (cc)
status_conditions-IsQuiet (not_a_condition ∷ cs) = status_conditions-IsQuiet cs
status_conditions-IsQuiet (condition c ∷ cs) = elim (Option-cases (condition_result c)) [
  | inl e ↦ rw (e, status_conditions) (status_conditions-IsQuiet cs)
  | inr (r, e) ↦ rw (e, status_conditions) (λ h. condition_result-quiet c r e (cc))
]

-- Custom checks that do not say it either.
abbrev pub AreQuiet : CustomStatusCheckers → Type 0
AreQuiet checkers =
    All
      (λ (c : GroupKind × (Unstructured → Answer)). (object : Unstructured) → IsQuiet (c.1 object))
      checkers

ite-some_cases :
    {P A : Type 0} (d : Dec P) {x y : Option A} {b : A}
    → ite d x y ≡ some b
    → (x ≡ some b) ⊎ (y ≡ some b)
ite-some_cases (yes p) e = inl e
ite-some_cases (no p) e = inr e

custom-IsQuiet :
    (gk : GroupKind) (checkers : CustomStatusCheckers) (check : Unstructured → Answer)
    → AreQuiet checkers
    → get group_kind_discrete gk checkers ≡ some check
    → (object : Unstructured) → IsQuiet (check object)
unfolding get
custom-IsQuiet gk [] check h e object = absurd (cc)
custom-IsQuiet gk ((k, c) ∷ checkers) check h e object =
    elim (ite-some_cases (group_kind_discrete k gk) e) [
      | inl here ↦
          subst (λ (f : Unstructured → Answer). IsQuiet (f object)) {x = c} {y = check} (cc)
            (h.0 object)
      | inr later ↦ custom-IsQuiet gk checkers check h.1 later object
    ]

module _ (api : Api) where
  check_generations-IsQuiet : (object : Unstructured) → IsQuiet (check_generations api object)
  unfolding check_generations generation_check
  check_generations-IsQuiet object = go (api.observed_generation object)
    where
      go : (o : Nested ℤ) → IsQuiet (generation_check api object o)
      go missing = λ h. absurd (cc)
      go (mistyped error) = λ h. absurd (cc)
      go (present observed) =
          ite-IsQuiet (ℤ_discrete observed (api.generation object)) _ _ (λ h. absurd (cc))
            (λ h. absurd (cc))

  daemon_set_check-IsQuiet : (object : Unstructured) → IsQuiet (daemon_set_check api object)
  unfolding daemon_set_check daemon_set_observed
  daemon_set_check-IsQuiet object = go (api.observed_generation object)
    where
      go : (o : Nested ℤ) → IsQuiet (daemon_set_observed api object o)
      go missing = λ h. absurd (cc)
      go (mistyped error) = λ h. absurd (cc)
      go (present observed) =
          typed-IsQuiet daemon_set_status_check daemon_set_status_check-quiet
            (api.to_daemon_set object)

  core_check-IsQuiet : (gk : GroupKind) (object : Unstructured) → IsQuiet (core_check api gk object)
  unfolding core_check
  core_check-IsQuiet gk object =
      ite-IsQuiet (group_kind_discrete gk crd_gk) _ _
        (typed-IsQuiet crd_status_check crd_status_check-quiet (api.to_crd object))
        (ite-IsQuiet (group_kind_discrete gk service_gk) _ _
          (typed-IsQuiet service_status_check service_status_check-quiet (api.to_service object))
          (ite-IsQuiet (group_kind_discrete gk pvc_gk) _ _
            (typed-IsQuiet pvc_status_check pvc_status_check-quiet (api.to_pvc object))
            (ite-IsQuiet (group_kind_discrete gk job_gk) _ _
              (typed-IsQuiet job_status_check job_status_check-quiet (api.to_job object))
              (ite-IsQuiet (group_kind_discrete gk pod_gk) _ _
                (typed-IsQuiet (pod_status_check api.now) (pod_status_check-quiet api.now)
                  (api.to_pod object))
                (ite-IsQuiet (group_kind_discrete gk deploy_gk) _ _
                  (typed-IsQuiet deploy_status_check deploy_status_check-quiet
                    (api.to_deployment object))
                  (ite-IsQuiet (group_kind_discrete gk ds_gk) _ _ (daemon_set_check-IsQuiet object)
                    (ite-IsQuiet (group_kind_discrete gk sts_gk) _ _
                      (typed-IsQuiet stateful_set_status_check stateful_set_status_check-quiet
                        (api.to_stateful_set object))
                      (λ h. absurd (cc)))))))))

  check_status_conditions-IsQuiet :
      (object : Unstructured) → IsQuiet (check_status_conditions api object)
  unfolding check_status_conditions
  check_status_conditions-IsQuiet object = go (api.conditions object)
    where
      go : (cs : Nested (List ConditionData)) → IsQuiet (conditions_check cs)
      go missing = λ h. absurd (cc)
      go (mistyped error) = λ h. absurd (cc)
      go (present cs) = status_conditions-IsQuiet cs

  check_custom_resources-IsQuiet :
      (checkers : CustomStatusCheckers) (object : Unstructured)
      → AreQuiet checkers
      → IsQuiet (check_custom_resources api checkers object)
  unfolding check_custom_resources get
  check_custom_resources-IsQuiet checkers object h =
      elim (Option-cases (get group_kind_discrete (group_kind_of object) checkers)) [
        | inl e ↦
            rw (e, check_custom_resources)
              (or_else-IsQuiet (check_status_conditions api object) _
                (check_status_conditions-IsQuiet object) (λ p. absurd (cc)))
        | inr (check, e) ↦
            rw (e, check_custom_resources)
              (custom-IsQuiet (group_kind_of object) checkers check h e object)
      ]

  -- Where no custom check says so by itself, an object is terminating exactly when it is deleted.
  pub status_check-terminating :
      (checkers : CustomStatusCheckers) (object : Unstructured)
      → AreQuiet checkers
      → (status_of (status_check api checkers object) ≡ some status_terminating)
        ↔ (api.is_deleted object ≡ true)
  unfolding status_check check_core_resources
  status_check-terminating checkers object quiet = elim (Bool-cases (api.is_deleted object)) [
    | inl e ↦ rw e (λ h. refl, λ h. refl)
    | inr e ↦ rw e (
      λ h. absurd (
          or_else-IsQuiet (check_generations api object) _ (check_generations-IsQuiet object)
            (or_else-IsQuiet (check_core_resources api object) _
              (core_check-IsQuiet (group_kind_of object) object)
              (check_custom_resources-IsQuiet checkers object quiet))
            h),
      λ h. absurd (cc),
    )
  ]
