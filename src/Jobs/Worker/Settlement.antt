-- ===== src/Jobs/Worker/Settlement.antt =====
-- How a job that its worker holds ends.
use software_engineering_car.Common.{
  ℕ, ◌<◌, String, ◌≡◌, refl, true, false, not, some, List, arith, ltb, ◌∙◌, if◌then◌else◌,
}
use software_engineering_car.Common.Table.{UniqueKeys}
use software_engineering_car.Jobs.Model.{JobStatus, Job, job_id, should_retry_job}
use software_engineering_car.Jobs.Queue.{succeed, fail}
use software_engineering_car.Jobs.Queue.Rows.{Table, job_at}
use software_engineering_car.Jobs.Queue.Ownership.{mark_succeeded_exact, mark_failed_rows}
use software_engineering_car.Jobs.Worker.{
  Settings, Outcome, returned, raised, Call, made, transitioned, maintain_lease, settle_job,
  process_job,
}
use software_engineering_car.Jobs.Worker.Heartbeat.{
  InTime, last_expiry, IsHeld, IsHeld-owned, maintain_lease-IsHeld, maintain_lease-UniqueKeys,
}

-- The final state that an outcome asks for: a result completes the job, an invalid task dies at
-- once, any other failure is tried again while attempts are left.
abbrev pub due_status : Outcome → ℕ → ℕ → JobStatus
due_status (returned payload) attempts limit = JobStatus.succeeded
due_status (raised message true) attempts limit = JobStatus.dead_lettered
due_status (raised message false) attempts limit =
    if ltb attempts limit then JobStatus.retry_scheduled else JobStatus.dead_lettered

module _ (truncate : String → String) (s : Settings) where
  -- The row that an outcome leaves.
  abbrev pub finish : Outcome → ℕ → Job → Job
  finish (returned payload) now j = succeed payload now j
  finish (raised message handler_error) now j =
      fail truncate message (not handler_error) s.retry_base_delay s.retry_max_delay now j

  finish-status :
      (o : Outcome) (now : ℕ) (j : Job)
      → (finish o now j).status ≡ due_status o j.attempt_count j.max_attempts
  unfolding succeed fail should_retry_job
  finish-status (returned payload) now j = refl
  finish-status (raised message true) now j = ground arith
  finish-status (raised message false) now j = ground arith

  settle_job-held :
      (o : Outcome) (k expires now : ℕ) (db : Table) (j : Job)
      → UniqueKeys job_id db
      → IsHeld s.worker_id expires k db j
      → now < expires
      → ((settle_job truncate s k o (made now) (made now) db).0
          ≡ transitioned (finish o now j).status)
        × (job_at k (settle_job truncate s k o (made now) (made now) db).1 ≡ some (finish o now j))
  unfolding settle_job
  settle_job-held (returned payload) k expires now db j u h lt =
      let owned = IsHeld-owned s.worker_id expires k now db j h lt in
      let (reply, row) = mark_succeeded_exact k s.worker_id payload now db u in
      (
        unfold succeed in ground (arith, reply, h.there, owned),
        ground (arith, row k, h.there, owned),
      )
  settle_job-held (raised message handler_error) k expires now db j u h lt =
      let owned = IsHeld-owned s.worker_id expires k now db j h lt in
      let (reply, row) =
        mark_failed_rows truncate k s.worker_id message (not handler_error) s.retry_base_delay
          s.retry_max_delay now db u in
      (ground (arith, reply, h.there, owned), ground (arith, row k, h.there, owned))

  -- On a table with unique ids, a job that its worker holds, whose heartbeats come in time and
  -- whose outcome is saved before its lease ends, reaches the status that the outcome asks for:
  -- the worker counts that status, and the row is what the outcome makes of the job with the same
  -- payload.
  pub process_job_settles :
      (o : Outcome) (k expires now : ℕ) (beats : List Call) (db : Table) (j : Job)
      → UniqueKeys job_id db
      → IsHeld s.worker_id expires k db j
      → InTime s.lease_duration expires beats
      → now < last_expiry s.lease_duration expires beats
      → (j' : Job) × ((process_job truncate s k beats o (made now) (made now) db).0
          ≡ transitioned (due_status o j.attempt_count j.max_attempts))
        × (job_at k (process_job truncate s k beats o (made now) (made now) db).1
            ≡ some (finish o now j'))
        × (j'.payload ≡ j.payload)
  unfolding process_job
  process_job_settles o k expires now beats db j u h t lt =
      let (j', held, same_payload, same_count, same_limit) =
        maintain_lease-IsHeld s k expires beats db j u h t in
      let (reply, row) =
        settle_job-held o k (last_expiry s.lease_duration expires beats) now
          (maintain_lease s k beats db) j' (maintain_lease-UniqueKeys s k beats db u) held lt in
      (j', reply ∙ rw (finish-status o now j', same_count, same_limit) refl, row, same_payload)
