-- ===== src/Jobs/Queue/Rows.antt =====
-- The table of jobs, seen by primary key.
use software_engineering_car.Common.{ℕ, Option, List}
use software_engineering_car.Common.Table.{row_at}
use software_engineering_car.Jobs.Model.{Job, job_id}

abbrev pub Table : Type 0
Table = List Job

abbrev pub job_at : ℕ → Table → Option Job
job_at = row_at job_id
