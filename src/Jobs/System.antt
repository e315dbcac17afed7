-- ===== src/Jobs/System.antt =====
-- The job table under any interleaving of its clients: submissions through the API and the
-- transactions of all workers, one after the other in an order that nobody chooses.
pub mod Step
pub mod Runs
use software_engineering_car.Common.{
  ℕ, ◌≤◌, String, ◌≡◌, Bool, true, false, Option, none, some, List, [], ◌∷◌,
}
use software_engineering_car.Common.Table.{has_key}
use software_engineering_car.Jobs.Model.{Job, job_id}
use software_engineering_car.Jobs.Queue.{
  claim_jobs, renew_lease, mark_succeeded, mark_failed, recover_stale_jobs,
}
use software_engineering_car.Jobs.Queue.Rows.{Table}
use software_engineering_car.Jobs.Submission.{JobCreate, in_limits, create_job}

-- One transaction, with what its caller and the database supply.
pub data Op : Type 0 where
  submit : JobCreate → ℕ → ℕ → Op
  claim : String → List String → ℕ → ℕ → ℕ → List ℕ → Op
  renew : ℕ → String → ℕ → ℕ → Op
  complete : ℕ → String → String → ℕ → Op
  fail : ℕ → String → String → Bool → ℕ → ℕ → ℕ → Op
  recover : ℕ → ℕ → List ℕ → Op

-- The worker whose call it is, if any, and the time of the call.
abbrev pub op_actor : Op → Option String
op_actor (submit d new_id now) = none
op_actor (claim worker queues limit lease now locked) = some worker
op_actor (renew i worker lease now) = some worker
op_actor (complete i worker payload now) = some worker
op_actor (fail i worker message retryable base max_delay now) = some worker
op_actor (recover limit now locked) = none

abbrev pub op_time : Op → ℕ
op_time (submit d new_id now) = now
op_time (claim worker queues limit lease now locked) = now
op_time (renew i worker lease now) = now
op_time (complete i worker payload now) = now
op_time (fail i worker message retryable base max_delay now) = now
op_time (recover limit now locked) = now

module _ (truncate : String → String) where
  unfoldable pub apply : Op → Table → Table
  apply (submit d new_id now) db = (create_job d new_id now db).1
  apply (claim worker queues limit lease now locked) db =
      (claim_jobs worker queues limit lease now locked db).1
  apply (renew i worker lease now) db = (renew_lease i worker lease now db).1
  apply (complete i worker payload now) db = (mark_succeeded i worker payload now db).1
  apply (fail i worker message retryable base max_delay now) db =
      (mark_failed truncate i worker message retryable base max_delay now db).1
  apply (recover limit now locked) db = (recover_stale_jobs limit now locked db).1

  unfoldable pub run : List Op → Table → Table
  run [] db = db
  run (op ∷ ops) db = run ops (apply op db)

  -- The schema has accepted a submission, and `uuid4()` gave it an id that is new.
  abbrev pub Admissible : Op → Table → Type 0
  Admissible (submit d new_id now) db = (in_limits d ≡ true) × (has_key job_id new_id db ≡ false)
  Admissible _ db = Unit

  abbrev pub AllAdmissible : List Op → Table → Type 0
  AllAdmissible [] db = Unit
  AllAdmissible (op ∷ ops) db = Admissible op db × AllAdmissible ops (apply op db)
