-- ===== src/Jobs/Model.antt =====
-- The persistent job and its states (distributed-job-processing-system/src/job_system/models.py),
-- and the retry rules at the head of queue.py.
-- Times and delays are whole numbers of one tick, a microsecond: a `timedelta` has that resolution.
-- A payload or result is a JSON document, kept as its canonical text.
use software_engineering_car.Common.{
  ℕ, ◌-◌, ◌*◌, ◌^◌, String, Bool, true, false, ◌&&◌, Option, ltb, min, max,
}
use software_engineering_car.Common.Int.{ℤ}

pub data JobStatus : Type 0 where
  queued running retry_scheduled succeeded dead_lettered cancelled : JobStatus

pub record Job : Type 0 where
  pub id : ℕ
  pub queue : String
  pub task_name : String
  pub payload : String
  pub status : JobStatus
  pub priority : ℤ
  pub idempotency_key : Option String
  pub attempt_count : ℕ
  pub max_attempts : ℕ
  pub available_at : ℕ
  pub worker_id : Option String
  pub result : Option String
  pub last_error : Option String
  pub started_at : Option ℕ
  pub completed_at : Option ℕ
  pub lease_expires_at : Option ℕ
  pub heartbeat_at : Option ℕ
  pub created_at : ℕ
  pub updated_at : ℕ

abbrev pub job_id : Job → ℕ
job_id j = j.id

abbrev pub is_running : JobStatus → Bool
is_running JobStatus.running = true
is_running _ = false

-- `Job.status.in_((QUEUED, RETRY_SCHEDULED))`
abbrev pub is_waiting : JobStatus → Bool
is_waiting JobStatus.queued = true
is_waiting JobStatus.retry_scheduled = true
is_waiting _ = false

abbrev pub is_terminal : JobStatus → Bool
is_terminal JobStatus.succeeded = true
is_terminal JobStatus.dead_lettered = true
is_terminal JobStatus.cancelled = true
is_terminal _ = false

unfoldable pub should_retry_job : Bool → ℕ → ℕ → Bool
should_retry_job retryable attempt_count max_attempts = retryable && ltb attempt_count max_attempts

-- Python's `-` is signed there, but `max(..., 0)` cuts it off at 0 as `-` on ℕ does.
unfoldable pub calculate_retry_delay : ℕ → ℕ → ℕ → ℕ
calculate_retry_delay attempt_count base_delay max_delay =
    let exponential_delay = base_delay * 2 ^ max (attempt_count - 1) 0 in
    min exponential_delay max_delay
