-- ===== src/Poller/Object.antt =====
-- What the checks read of an object: the fields of the typed resources that pkg/poller/statuschecker.go
-- uses, and the functions of apimachinery that get them.
use mathlib.Core.Bool.{decide}
use Prim.Native.String.{String}
use Prim.Native.Nat.{◌%◌}
use jpl.Base.{
  Str, str_discrete, codes, Bool, List, Option, none, some, ℕ, ◌+◌, ◌-◌, ◌&&◌, ◌||◌, true, false,
  [], ◌∷◌, ◌≡◌, arith,
}
use jpl.Base.Int.{ℤ, pos_part, neg_part, sub_ℕ}
use jpl.Resource.Object.{Unstructured}

-- A condition of a status; the status is "True", "False" or "Unknown".
pub record Condition : Type 0 where
  pub type : Str
  pub status : Str
  pub reason : Str
  pub message : Str

pub record Service : Type 0 where
  pub type : Str
  pub ingress : ℕ

pub record Job : Type 0 where
  pub parallelism : Option ℤ
  pub completions : Option ℤ
  pub conditions : List Condition
  pub started : Bool
  pub succeeded : ℤ
  pub active : ℤ
  pub failed : ℤ

-- `waiting` is the reason of the waiting state, where there is one.
pub record ContainerStatus : Type 0 where
  pub name : Str
  pub waiting : Option Str

-- `creation_time` in nanoseconds.
pub record Pod : Type 0 where
  pub creation_time : ℤ
  pub phase : Str
  pub conditions : List Condition
  pub container_statuses : List ContainerStatus
  pub init_container_statuses : List ContainerStatus

pub record Deployment : Type 0 where
  pub progress_deadline_seconds : Option ℤ
  pub spec_replicas : Option ℤ
  pub conditions : List Condition
  pub replicas : ℤ
  pub updated_replicas : ℤ
  pub available_replicas : ℤ
  pub ready_replicas : ℤ

pub record DaemonSet : Type 0 where
  pub desired_number_scheduled : ℤ
  pub current_number_scheduled : ℤ
  pub updated_number_scheduled : ℤ
  pub number_available : ℤ
  pub number_ready : ℤ

-- `partition` is `spec.updateStrategy.rollingUpdate.partition`, where neither pointer is nil.
pub record StatefulSet : Type 0 where
  pub update_strategy : Str
  pub partition : Option ℤ
  pub spec_replicas : Option ℤ
  pub replicas : ℤ
  pub ready_replicas : ℤ
  pub current_replicas : ℤ
  pub updated_replicas : ℤ
  pub current_revision : Str
  pub update_revision : Str

-- What FromUnstructured gives: the typed value or an error.
pub data Converted (A : Type 0) : Type 0 where
  converted : A → Converted A
  malformed : Str → Converted A

-- What a getter of a nested field gives.
pub data Nested (A : Type 0) : Type 0 where
  missing : Nested A
  present : A → Nested A
  mistyped : Str → Nested A

-- An element of `status.conditions`: not a map, or a map that is a condition or is not.
pub data ConditionData : Type 0 where
  not_a_map : ConditionData
  not_a_condition : ConditionData
  condition : Condition → ConditionData

-- The functions outside the repository that the checks call on an object, and the time.
pub record Api : Type 0 where
  pub is_deleted : Unstructured → Bool
  pub generation : Unstructured → ℤ
  pub observed_generation : Unstructured → Nested ℤ
  pub conditions : Unstructured → Nested (List ConditionData)
  pub to_crd : Unstructured → Converted (List Condition)
  pub to_service : Unstructured → Converted Service
  pub to_pvc : Unstructured → Converted Str
  pub to_job : Unstructured → Converted Job
  pub to_pod : Unstructured → Converted Pod
  pub to_deployment : Unstructured → Converted Deployment
  pub to_daemon_set : Unstructured → Converted DaemonSet
  pub to_stateful_set : Unstructured → Converted StatefulSet
  pub now : ℤ

unfoldable pub is_text : Str → String → Bool
unfolding decide str_discrete
is_text s t = decide (str_discrete s (codes t))

-- One text is not two.
pub is_text_unique :
    (s : Str) (a b : String) → is_text s a ≡ true → is_text s b ≡ true → codes a ≡ codes b
unfolding is_text decide
is_text_unique s a b p q = ground arith

-- A condition of this type and with this status.
abbrev pub holds : String → String → Condition → Bool
holds type status c = is_text c.type type && is_text c.status status

-- The value of an int32 expression: wrapped around into -2³¹ … 2³¹ - 1.
abbrev pub wrap_32 : ℤ → ℤ
wrap_32 z =
    sub_ℕ ((pos_part z + (4294967296 - neg_part z % 4294967296) + 2147483648) % 4294967296)
      2147483648

-- `a - b` on int32
abbrev pub sub_32 : ℤ → ℤ → ℤ
sub_32 a b = wrap_32 (sub_ℕ (pos_part a + neg_part b) (pos_part b + neg_part a))

-- `*p`, or `default` where `p` is nil.
abbrev pub deref_or : ℤ → Option ℤ → ℤ
deref_or default none = default
deref_or default (some i) = i

-- Some condition passes the test.
abbrev pub any : (Condition → Bool) → List Condition → Bool
any test [] = false
any test (c ∷ cs) = test c || any test cs
