-- ===== src/Poller/Examples.antt =====
-- The checks at concrete objects, a rolled out deployment and a refused CRD, and the reports of an
-- informer.
use mathlib.Core.Bool.{decide}
use jpl.Base.{
  ◌++◌, ℕ, Str, List, arith, codes, str_discrete, ◌≡◌, refl, true, false, [], ◌∷◌, none, some, ◌↔◌,
}
use jpl.Base.Int.{pos}
use jpl.Base.Interleaving.{IsInterleaving, neither, from_left, from_right}
use jpl.Remote.{Error, other_reason, forbidden}
use jpl.Event.{Event}
use jpl.Poller.Handler.{
  handle_all, handle, removed, unexpected_type, handle_informer_error, watch_all,
  watch_error_handler, added, updated, deleted, an_object, another, final_object,
}
use jpl.Poller.Multiplexer.{
  Mux, Reach, later, at_start, move, check, add, take, send, new_multiplexer,
}
use jpl.Poller.Multiplexer.Counting.{received_from}
use jpl.Poller.Delivered.{IsReceived, received-IsReceived}
use jpl.Poller.Handler.Reports.{IsReport, handle_all-IsReport}
use jpl.Resource.Object.{Unstructured, ObjectMetadata, GroupKind}
use jpl.Poller.Result.{
  status_current, status_failed, status_terminating, result, failed_result, text,
}
use jpl.Poller.Object.{Condition, Deployment, converted, malformed, missing, present, Api, is_text}
use jpl.Poller.Kinds.{crd_status_check}
use jpl.Poller.Kinds.Verdicts.{crd_status_check-first}
use jpl.Poller.Workloads.Rollout.{IsRolledOut}
use jpl.Poller.Check.{CustomStatusCheckers, status_check}
use jpl.Poller.Check.Precedence.{status_of, IsObserved, status_check-deployment}
use jpl.Poller.Check.Terminating.{status_check-terminating}

abbrev is_available : Condition
is_available = record {
  type = codes "Available";
  status = codes "True";
  reason = codes "MinimumReplicasAvailable";
  message = [];
}

abbrev web : Deployment
web = record {
  progress_deadline_seconds = none;
  spec_replicas = some (pos 3);
  conditions = is_available ∷ [];
  replicas = pos 3;
  updated_replicas = pos 3;
  available_replicas = pos 3;
  ready_replicas = pos 3;
}

abbrev web_object : Unstructured
web_object = record {
  address = 7;
  gvk = record { group = codes "apps"; version = codes "v1"; kind = codes "Deployment" };
  name = codes "web";
  namespace = codes "shop";
  annotations = [];
}

abbrev cluster : Api
cluster = record {
  is_deleted = λ object. false;
  generation = λ object. pos 4;
  observed_generation = λ object. present (pos 4);
  conditions = λ object. missing;
  to_crd = λ object. malformed [];
  to_service = λ object. malformed [];
  to_pvc = λ object. malformed [];
  to_job = λ object. malformed [];
  to_pod = λ object. malformed [];
  to_deployment = λ object. converted web;
  to_daemon_set = λ object. malformed [];
  to_stateful_set = λ object. malformed [];
  now = pos 0;
}

abbrev gateway_gk : GroupKind
gateway_gk = record { group = codes "gateway.networking.k8s.io"; kind = codes "Gateway" }

-- A custom check that always fails.
abbrev checkers : CustomStatusCheckers
checkers = (gateway_gk, λ object. result (failed_result (text (codes "no gateway")))) ∷ []

status_check-deployment_example :
    (status_of (status_check cluster checkers web_object) ≡ some status_current)
    ↔ (IsObserved cluster web_object (present (pos 4)) × IsRolledOut web)
status_check-deployment_example =
    status_check-deployment cluster checkers web_object web refl refl refl

status_check-terminating_example :
    (status_of (status_check cluster checkers web_object) ≡ some status_terminating)
    ↔ (false ≡ true)
status_check-terminating_example =
    status_check-terminating cluster checkers web_object (λ object h. absurd (cc), tt)

abbrev refused : Condition
refused = record {
  type = codes "NamesAccepted";
  status = codes "False";
  reason = codes "Conflict";
  message = codes "names conflict";
}

crd_status_check-first_example :
    (crd_status_check (is_available ∷ refused ∷ [])).status ≡ status_failed
unfolding is_text decide str_discrete
crd_status_check-first_example = crd_status_check-first (is_available ∷ refused ∷ [])

abbrev web_object_id : ObjectMetadata
web_object_id = record {
  name = codes "web";
  namespace = codes "shop";
  group = codes "apps";
  kind = codes "Deployment";
}

handle_all-IsReport_example : IsReport (web_object_id ∷ []) (
    handle_all cluster []
      (λ text. record { text = text; reason = other_reason })
      (web_object_id ∷ [])
      false
      (added (an_object web_object)
        ∷ updated (another (codes "*v1.Pod"))
        ∷ deleted (final_object web_object)
        ∷ []))
handle_all-IsReport_example =
    handle_all-IsReport (web_object_id ∷ []) cluster []
      (λ text. record { text = text; reason = other_reason })
      (added (an_object web_object)
        ∷ updated (another (codes "*v1.Pod"))
        ∷ deleted (final_object web_object)
        ∷ [])

abbrev check_failure : Str → Error
check_failure words = record { text = words; reason = other_reason }

abbrev not_allowed : Error
not_allowed = record { text = codes "pods is forbidden"; reason = forbidden }

-- The error of the watch is sent before that of a handler that has looked at the context already.
abbrev two_errors : ℕ → List Event
two_errors i =
    watch_all (not_allowed ∷ [])
    ++ handle_all cluster [] check_failure (web_object_id ∷ []) false
        (deleted (another (codes "*v1.Pod")) ∷ [])

two_errors-IsInterleaving :
    (i : ℕ)
    → IsInterleaving
        (handle_all cluster [] check_failure
          (web_object_id ∷ [])
          false
          (deleted (another (codes "*v1.Pod")) ∷ []))
        (watch_all (not_allowed ∷ []))
        (two_errors i)
unfolding watch_all handle_all handle removed unexpected_type handle_informer_error
    watch_error_handler
two_errors-IsInterleaving i = from_right _ (from_left _ neither)

-- The error of the watch is received.
one_received : (s : Mux Event) × Reach two_errors 1 s
unfolding watch_all handle_all handle removed unexpected_type handle_informer_error new_multiplexer
    watch_error_handler
one_received = (
  _,
  later
      (later
        (later (later at_start (move 0 (omega arith) refl (check refl)))
          (move 0 (omega arith) refl add))
        (move 0 (omega arith) refl take))
      (move 0 (omega arith) refl (send refl refl)),
)

received-IsReceived_example :
    IsReceived (web_object_id ∷ []) (received_from 0 one_received.0.shared.received)
received-IsReceived_example =
    received-IsReceived (web_object_id ∷ []) cluster [] check_failure
      (λ i. deleted (another (codes "*v1.Pod")) ∷ []) (λ i. not_allowed ∷ []) two_errors 1
      one_received.0 0 two_errors-IsInterleaving one_received.1
