-- ===== src/Generator/Named.antt =====
-- The job that is made of a cron job: its name and its annotations.
use Prim.Native.Nat.{min}
use jpl.Base.{
  ℕ, ◌+◌, ◌≤◌, zero, suc, Str, codes, str_discrete, List, [], ◌∷◌, ◌++◌, some, ◌≡◌, refl, ap, arith,
  length, length-append,
}
use jpl.Base.Maps.{get, keys}
use jpl.Base.Merge.{first_of, get-put_all}
use jpl.Generator.{
  CronJob, Job, hex, slice_to, job_name, job_annotations, instantiate, create_job_from_cron_job,
}
use mathlib.Core.List.{Nodup}

length-hex : (bytes : List ℕ) → length (hex bytes) ≡ length bytes + length bytes
unfolding hex
length-hex [] = omega arith
length-hex (b ∷ bytes) = omega (arith, length-hex bytes)

-- A slice up to the length: the text begins with it.
slice_to-prefix :
    (n : ℕ) (s : Str)
    → n ≤ length s
    → (t rest : Str) × (slice_to n s ≡ some t) × (length t ≡ n) × (s ≡ t ++ rest)
unfolding slice_to
slice_to-prefix zero s h = ([], s, refl, refl, refl)
slice_to-prefix (suc n) [] h = absurd (omega (arith, h))
slice_to-prefix (suc n) (c ∷ s) h =
    let (t, rest, cut, size, split) = slice_to-prefix n s (omega (arith, h)) in
    (c ∷ t, rest, ground (arith, cut), omega (arith, size), ap (λ r. c ∷ r) split)

long_enough :
    (name : Str) (bytes : List ℕ)
    → length bytes ≡ 10
    → min 64 (length name + 6) ≤ length (name ++ (codes "-" ++ hex bytes))
long_enough name bytes h =
    omega (arith, length-append name (codes "-" ++ hex bytes), length-hex bytes, h)

-- What the job has of the cron job and of the random bytes.
pub record IsJobOf {Spec : Type 0} (c : CronJob Spec) (bytes : List ℕ) (job : Job Spec)
    : Type 0 where
  pub name_length : length job.name ≡ min 64 (length c.name + 6)
  pub name_rest : Str
  pub name_split : c.name ++ (codes "-" ++ hex bytes) ≡ job.name ++ name_rest
  pub annotation :
      (key : Str)
      → get str_discrete key job.annotations
        ≡ first_of
            (get str_discrete key c.template_annotations)
            (get str_discrete key ((instantiate, codes "manual") ∷ []))

-- On ten random bytes and a template whose map of annotations has each key once,
-- createJobFromCronJob does not panic: the name of the job is the first part, as long as that of the
-- cron job and six more but at most 64, of that name, a dash and the digits of the bytes, and the job
-- has the annotations of the template, and the one of a manual start where the template has none.
pub create_job_from_cron_job-IsJobOf :
    {Spec : Type 0} (c : CronJob Spec) (bytes : List ℕ)
    → length bytes ≡ 10
    → Nodup (keys c.template_annotations)
    → (job : Job Spec) × (create_job_from_cron_job c bytes ≡ some job) × IsJobOf c bytes job
unfolding create_job_from_cron_job job_name job_annotations
create_job_from_cron_job-IsJobOf c bytes ten once =
    let (name, rest, cut, size, split) = slice_to-prefix _ _ (long_enough c.name bytes ten) in
    (
      record {
        api_version = codes "batch/v1";
        kind = codes "Job";
        name = name;
        namespace = c.namespace;
        annotations = job_annotations c;
        labels = c.template_labels;
        spec = c.template_spec;
      },
      ground (arith, cut),
      record {
        name_length = size;
        name_rest = rest;
        name_split = split;
        annotation = λ key. get-put_all str_discrete key c.template_annotations _ once;
      },
    )
