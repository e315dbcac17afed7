-- ===== src/Jobs/Submission.antt =====
-- Submitting and listing jobs (distributed-job-processing-system/src/job_system: repository.py,
-- services.py, the constraints of schemas.py, and the routes of api/jobs.py). `uuid4()` and the
-- database's `now()` are the arguments `new_id` and `now`.
pub mod Idempotency
pub mod Pages
use software_engineering_car.Common.{
  ℕ, ◌≤◌, String, Bool, true, false, ◌&&◌, Option, none, some, List, [], ◌∷◌, ltb, leb, ◌==◌,
  str_eq, opt_str_eq, take, drop, if◌then◌else◌,
}
use software_engineering_car.Common.Int.{ℤ, pos, negsuc, leb_ℤ, eq_ℤ}
use software_engineering_car.Common.Sorting.{order_by}
use software_engineering_car.Common.Table.{select_where, scalar, row_at}
use software_engineering_car.Jobs.Model.{JobStatus, Job, job_id}

pub record JobCreate : Type 0 where
  pub queue : String
  pub task_name : String
  pub payload : String
  pub priority : ℤ
  pub max_attempts : ℕ
  pub idempotency_key : Option String

-- The numeric limits of the schema: -100 ≤ priority ≤ 100 and 1 ≤ max_attempts ≤ 100.
unfoldable pub in_limits : JobCreate → Bool
in_limits d =
    leb_ℤ (negsuc 99) d.priority
    && leb_ℤ d.priority (pos 100)
    && leb 1 d.max_attempts
    && leb d.max_attempts 100

-- The row that a submission writes, with the defaults of the columns that it leaves out.
unfoldable pub new_job : JobCreate → ℕ → ℕ → Job
new_job d new_id now = record {
  id = new_id;
  queue = d.queue;
  task_name = d.task_name;
  payload = d.payload;
  status = JobStatus.queued;
  priority = d.priority;
  idempotency_key = d.idempotency_key;
  attempt_count = 0;
  max_attempts = d.max_attempts;
  available_at = now;
  worker_id = none;
  result = none;
  last_error = none;
  started_at = none;
  completed_at = none;
  lease_expires_at = none;
  heartbeat_at = none;
  created_at = now;
  updated_at = now;
}

unfoldable pub add_job : JobCreate → ℕ → ℕ → List Job → Job × List Job
unfolding new_job
add_job d new_id now db = let job = new_job d new_id now in (job, job ∷ db)

abbrev pub has_idempotency_key : String → Job → Bool
has_idempotency_key key j = opt_str_eq j.idempotency_key key

-- INSERT ... ON CONFLICT (idempotency_key) DO NOTHING RETURNING: no row comes back on a conflict.
unfoldable pub insert_unless_conflict :
    JobCreate → String → ℕ → ℕ → List Job → Option Job × List Job
unfolding add_job
insert_unless_conflict d key new_id now db =
    elim (scalar (select_where (has_idempotency_key key) db)) [
      | none ↦ let (job, db') = add_job d new_id now db in (some job, db')
      | some owner ↦ (none, db)
    ]

pub data SubmitError : Type 0 where
  existing_job_not_found idempotency_conflict : SubmitError

pub data Submitted : Type 0 where
  ok : Job → Bool → Submitted
  err : SubmitError → Submitted

unfoldable pub existing_or_error : Option Job → Submitted
existing_or_error none = err existing_job_not_found
existing_or_error (some existing_job) = ok existing_job false

unfoldable pub created_or_existing : String → Option Job × List Job → Submitted × List Job
unfolding existing_or_error
created_or_existing key (some created_job, db) = (ok created_job true, db)
created_or_existing key (none, db) =
    (existing_or_error (scalar (select_where (has_idempotency_key key) db)), db)

unfoldable pub create_or_get : Option String → JobCreate → ℕ → ℕ → List Job → Submitted × List Job
unfolding add_job insert_unless_conflict created_or_existing
create_or_get none d new_id now db = let (job, db') = add_job d new_id now db in (ok job true, db')
create_or_get (some key) d new_id now db =
    created_or_existing key (insert_unless_conflict d key new_id now db)

unfoldable pub create_or_get_idempotent_job : JobCreate → ℕ → ℕ → List Job → Submitted × List Job
unfolding create_or_get
create_or_get_idempotent_job d = create_or_get d.idempotency_key d

unfoldable pub job_matches_submission : Job → JobCreate → Bool
job_matches_submission j d =
    str_eq j.queue d.queue
    && str_eq j.task_name d.task_name
    && str_eq j.payload d.payload
    && eq_ℤ j.priority d.priority
    && j.max_attempts == d.max_attempts

-- The end of the transaction: an exception inside it rolls back to the table `before`.
unfoldable pub settle : JobCreate → List Job → Submitted × List Job → Submitted × List Job
settle d before (ok job true, db) = (ok job true, db)
settle d before (ok job false, db) =
    if job_matches_submission job d then (ok job false, db) else (err idempotency_conflict, before)
settle d before (err e, db) = (err e, before)

-- `JobService.create_job`
unfoldable pub create_job : JobCreate → ℕ → ℕ → List Job → Submitted × List Job
unfolding create_or_get_idempotent_job settle
create_job d new_id now db = settle d db (create_or_get_idempotent_job d new_id now db)

-- The answer of `POST /jobs`, with the label of the submission counter.
pub data Response : Type 0 where
  created replayed : Job → Response
  conflict : Response
  server_error : Response

unfoldable pub respond : Submitted → Response
respond (ok job true) = created job
respond (ok job false) = replayed job
respond (err idempotency_conflict) = conflict
respond (err existing_job_not_found) = server_error

unfoldable pub post_job : JobCreate → ℕ → ℕ → List Job → Response × List Job
post_job d new_id now db =
    let (submitted, db') = create_job d new_id now db in (respond submitted, db')

-- ORDER BY created_at DESC, id DESC
unfoldable pub newest_first : Job → Job → Bool
newest_first a b =
    if ltb b.created_at a.created_at
    then true
    else if ltb a.created_at b.created_at
    then false
    else leb b.id a.id

abbrev pub same_status : JobStatus → JobStatus → Bool
same_status JobStatus.queued JobStatus.queued = true
same_status JobStatus.running JobStatus.running = true
same_status JobStatus.retry_scheduled JobStatus.retry_scheduled = true
same_status JobStatus.succeeded JobStatus.succeeded = true
same_status JobStatus.dead_lettered JobStatus.dead_lettered = true
same_status JobStatus.cancelled JobStatus.cancelled = true
same_status _ _ = false

abbrev pub queue_filter : Option String → Job → Bool
queue_filter none j = true
queue_filter (some queue) j = str_eq j.queue queue

abbrev pub status_filter : Option JobStatus → Job → Bool
status_filter none j = true
status_filter (some status) j = same_status j.status status

unfoldable pub matching_jobs : Option String → Option JobStatus → List Job → List Job
matching_jobs queue status db =
    order_by newest_first
      (select_where (status_filter status) (select_where (queue_filter queue) db))

-- `list_jobs`
unfoldable pub list_jobs : Option String → Option JobStatus → ℕ → ℕ → List Job → List Job
list_jobs queue status limit offset db = take limit (drop offset (matching_jobs queue status db))

-- `get_job_by_id`
unfoldable pub get_job_by_id : ℕ → List Job → Option Job
get_job_by_id = row_at job_id
