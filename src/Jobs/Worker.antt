-- ===== src/Jobs/Worker.antt =====
-- What one worker slot does with a claimed job (distributed-job-processing-system/src/job_system/
-- worker.py). The handler's outcome, the times of its database calls and the exceptions that these
-- raise come from outside; logging and metrics are left out, but the counted status is the reply.
pub mod Heartbeat
pub mod Settlement
use software_engineering_car.Common.{
  ℕ, String, Bool, true, false, not, Option, none, some, List, [], ◌∷◌, if◌then◌else◌,
}
use software_engineering_car.Jobs.Model.{JobStatus, Job}
use software_engineering_car.Jobs.Queue.{claim_jobs, renew_lease, mark_succeeded, mark_failed}

pub record Settings : Type 0 where
  pub worker_id : String
  pub queue_names : List String
  pub retry_base_delay : ℕ
  pub retry_max_delay : ℕ
  pub lease_duration : ℕ

-- How `execute_task` ended: its result, or the text of an exception and whether that is a
-- `TaskHandlerError`.
pub data Outcome : Type 0 where
  returned : String → Outcome
  raised : String → Bool → Outcome

-- How a database call ended: it was made at a time, or it raised an exception with a text.
pub data Call : Type 0 where
  made : ℕ → Call
  broken : String → Call

pub data Report : Type 0 where
  transitioned : JobStatus → Report
  ownership_changed not_persisted : Report

-- One round of `_maintain_lease` for each call; it goes on after an exception and ends when the
-- lease could not be renewed.
unfoldable pub maintain_lease : Settings → ℕ → List Call → List Job → List Job
maintain_lease s k [] db = db
maintain_lease s k (broken message ∷ calls) db = maintain_lease s k calls db
maintain_lease s k (made now ∷ calls) db =
    let (renewed, db') = renew_lease k s.worker_id s.lease_duration now db in
    let rest = maintain_lease s k calls db' in if renewed then rest else db'

module _ (truncate : String → String) (s : Settings) where
  abbrev pub failed_report : Option JobStatus → Report
  failed_report none = ownership_changed
  failed_report (some status) = transitioned status

  -- The `except Exception` branch: an exception of `mark_failed` itself is swallowed.
  unfoldable pub report_exception : ℕ → String → Bool → Call → List Job → Report × List Job
  report_exception k message handler_error (broken _) db = (not_persisted, db)
  report_exception k message handler_error (made now) db =
      let (status, db') =
        mark_failed truncate k s.worker_id message (not handler_error) s.retry_base_delay
          s.retry_max_delay now db in
      (failed_report status, db')

  -- The `try` branch of `_process_job`; an exception of `mark_succeeded` is no handler error.
  unfoldable pub settle_job : ℕ → Outcome → Call → Call → List Job → Report × List Job
  unfolding report_exception
  settle_job k (returned payload) (made now) failing db =
      let (updated, db') = mark_succeeded k s.worker_id payload now db in
      (if updated then transitioned JobStatus.succeeded else ownership_changed, db')
  settle_job k (returned payload) (broken message) failing db =
      report_exception k message false failing db
  settle_job k (raised message handler_error) saving failing db =
      report_exception k message handler_error failing db

  -- The heartbeats run while the handler does. Rounds that come while the outcome is saved are left
  -- out.
  unfoldable pub process_job : ℕ → List Call → Outcome → Call → Call → List Job → Report × List Job
  unfolding settle_job maintain_lease
  process_job k beats outcome saving failing db =
      settle_job k outcome saving failing (maintain_lease s k beats db)

  -- One round of `_run_slot`: claim one job and process it, if there is one.
  unfoldable pub slot_round :
      ℕ → List ℕ → List Call → Outcome → Call → Call → List Job → Option Report × List Job
  unfolding process_job
  slot_round now locked beats outcome saving failing db =
      let (jobs, db') = claim_jobs s.worker_id s.queue_names 1 s.lease_duration now locked db in
      elim jobs [
        | [] ↦ (none, db')
        | job ∷ _ ↦
            let (report, db'') = process_job job.id beats outcome saving failing db' in
            (some report, db'')
      ]
