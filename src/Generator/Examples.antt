-- ===== src/Generator/Examples.antt =====
-- A cron job whose template sets the annotation of the start, and one more.
use jpl.Base.{ℕ, codes, List, [], ◌∷◌, some, ◌≡◌, refl}
use jpl.Generator.{CronJob, Job, create_job_from_cron_job}
use jpl.Generator.Named.{IsJobOf, create_job_from_cron_job-IsJobOf}
use mathlib.Core.List.{Nodup-cons, Nodup-nil, not-mem-nil}

abbrev backup : CronJob ℕ
backup = record {
  name = codes "backup";
  namespace = codes "apps";
  template_annotations = (codes "owner", codes "team") ∷ [];
  template_labels = [];
  template_spec = 3;
}

abbrev random_bytes : List ℕ
random_bytes = 0 ∷ 17 ∷ 255 ∷ 64 ∷ 5 ∷ 6 ∷ 7 ∷ 8 ∷ 9 ∷ 160 ∷ []

create_job_from_cron_job-IsJobOf_example :
    (job : Job ℕ) × (create_job_from_cron_job backup random_bytes ≡ some job)
    × IsJobOf backup random_bytes job
create_job_from_cron_job-IsJobOf_example =
    create_job_from_cron_job-IsJobOf backup random_bytes refl
      (Nodup-cons.1 (not-mem-nil, Nodup-nil))
