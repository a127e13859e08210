-- ===== src/Generator.antt =====
-- Package generator (pkg/generator/cronjob.go): a job from a cron job that an annotation marks.
-- The conversions between an object and its typed form are parameters, and so are the random bytes.
-- Names are ASCII, one byte for each character. The specification of the job is of any type.
pub mod Named
mod Examples
use mathlib.Core.Bool.{decide}
use Prim.Native.Nat.{min, ◌/◌, ◌%◌}
use jpl.Base.{
  ℕ, ◌+◌, zero, suc, Str, codes, str_discrete, List, [], ◌∷◌, ◌++◌, Option, none, some, Bool, true,
  false, ◌&&◌, ltb, if◌then◌else◌, length,
}
use jpl.Base.Sets.{is_same}
use jpl.Base.Maps.{get}
use jpl.Base.Merge.{put_all}
use jpl.Remote.{Outcome, ok, err}
use jpl.Resource.Object.{GroupKind, Unstructured, group_kind_of, group_kind_discrete}

-- jobGenerator
pub record JobGenerator : Type 0 where
  pub annotation : Str
  pub value : Str

abbrev pub cron_job_gk : GroupKind
cron_job_gk = record { group = codes "batch"; kind = codes "CronJob" }

-- The value of a map at a key, empty for a missing key.
abbrev pub value_at : Str → List (Str × Str) → Str
value_at key m = elim (get str_discrete key m) [ some v ↦ v | none ↦ [] ]

-- CanHandleResource
pub can_handle_resource : JobGenerator → Unstructured → Bool
can_handle_resource g obj =
    decide (group_kind_discrete (group_kind_of obj) cron_job_gk)
    && is_same str_discrete (value_at g.annotation obj.annotations) g.value

-- What is read of a cron job.
pub record CronJob (Spec : Type 0) : Type 0 where
  pub name : Str
  pub namespace : Str
  pub template_annotations : List (Str × Str)
  pub template_labels : List (Str × Str)
  pub template_spec : Spec

pub record Job (Spec : Type 0) : Type 0 where
  pub api_version : Str
  pub kind : Str
  pub name : Str
  pub namespace : Str
  pub annotations : List (Str × Str)
  pub labels : List (Str × Str)
  pub spec : Spec

-- hex.EncodeToString
abbrev pub hex_digit : ℕ → ℕ
hex_digit n = if ltb n 10 then n + 48 else n + 87

pub hex : List ℕ → Str
hex [] = []
hex (b ∷ bytes) = hex_digit (b / 16) ∷ hex_digit (b % 16) ∷ hex bytes

-- `s[:n]`, which panics past the end.
slice_to : ℕ → Str → Option Str
slice_to zero s = some []
slice_to (suc n) [] = none
slice_to (suc n) (c ∷ s) = elim (slice_to n s) [ some t ↦ some (c ∷ t) | none ↦ none ]

abbrev pub instantiate : Str
instantiate = codes "cronjob.kubernetes.io/instantiate"

job_name : Str → List ℕ → Option Str
job_name name bytes = slice_to (min 64 (length name + 6)) (name ++ (codes "-" ++ hex bytes))

module _ {Spec : Type 0} where
  job_annotations : CronJob Spec → List (Str × Str)
  job_annotations c =
      put_all str_discrete c.template_annotations ((instantiate, codes "manual") ∷ [])

  -- createJobFromCronJob, on the random bytes; `none` where it panics.
  pub create_job_from_cron_job : CronJob Spec → List ℕ → Option (Job Spec)
  create_job_from_cron_job c bytes = elim (job_name c.name bytes) [
    | none ↦ none
    | some name ↦ some (record {
      api_version = codes "batch/v1";
      kind = codes "Job";
      name = name;
      namespace = c.namespace;
      annotations = job_annotations c;
      labels = c.template_labels;
      spec = c.template_spec;
    })
  ]

  -- Generate
  generated :
      (Job Spec → Outcome Unstructured) → Option (Job Spec) → Option (Outcome (List Unstructured))
  generated to_unstructured none = none
  generated to_unstructured (some job) =
      some (elim (to_unstructured job) [ err e ↦ err e | ok obj ↦ ok (obj ∷ []) ])

  pub generate :
      (Unstructured → Outcome (CronJob Spec))
      → (Job Spec → Outcome Unstructured)
      → List ℕ
      → Unstructured
      → Option (Outcome (List Unstructured))
  generate from_unstructured to_unstructured bytes obj = elim (from_unstructured obj) [
    | err e ↦ some (err e)
    | ok c ↦ generated to_unstructured (create_job_from_cron_job c bytes)
  ]
