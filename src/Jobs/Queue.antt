-- ===== src/Jobs/Queue.antt =====
-- `PostgresJobQueue` (distributed-job-processing-system/src/job_system/queue.py). Each method is one
-- transaction on the table of jobs; `now` is what `datetime.now(UTC)` returns in it. Rows that other
-- transactions hold locked are the ids `locked`, which `skip_locked` passes over.
pub mod Rows
pub mod Keys
pub mod Transition
pub mod Invariant
pub mod Lifecycle
pub mod Claims
pub mod Exclusive
pub mod Backoff
pub mod Ownership
use software_engineering_car.Common.{
  ℕ, zero, suc, ◌+◌, String, Bool, true, false, not, ◌&&◌, ◌||◌, Option, none, some, List, [], ◌∷◌,
  map, ltb, leb, ◌==◌, str_eq, opt_str_eq, length, take, if◌then◌else◌,
}
use software_engineering_car.Common.Int.{ltb_ℤ}
use software_engineering_car.Common.Sorting.{order_by}
use software_engineering_car.Common.Table.{select_where, update_where, at_key, scalar, write_each}
use software_engineering_car.Jobs.Model.{
  JobStatus, Job, job_id, is_running, is_waiting, should_retry_job, calculate_retry_delay,
}

abbrev pub contains_str : String → List String → Bool
contains_str s [] = false
contains_str s (t ∷ ts) = str_eq t s || contains_str s ts

abbrev pub contains_id : ℕ → List ℕ → Bool
contains_id k [] = false
contains_id k (i ∷ is) = i == k || contains_id k is

-- The WHERE test of `claim_jobs`.
unfoldable pub is_ready : List String → ℕ → Job → Bool
is_ready queues now j = is_waiting j.status && contains_str j.queue queues && leb j.available_at now

-- ORDER BY priority DESC, available_at ASC, created_at ASC, id ASC, from its last key up.
unfoldable pub by_id : Job → Job → Bool
by_id a b = leb a.id b.id

unfoldable pub by_created_at : Job → Job → Bool
by_created_at a b =
    if ltb a.created_at b.created_at
    then true
    else if ltb b.created_at a.created_at
    then false
    else by_id a b

unfoldable pub by_available_at : Job → Job → Bool
by_available_at a b =
    if ltb a.available_at b.available_at
    then true
    else if ltb b.available_at a.available_at
    then false
    else by_created_at a b

unfoldable pub claim_order : Job → Job → Bool
claim_order a b =
    if ltb_ℤ b.priority a.priority
    then true
    else if ltb_ℤ a.priority b.priority
    then false
    else by_available_at a b

unfoldable pub claim : String → ℕ → ℕ → Job → Job
claim worker now lease j = record j {
  status = JobStatus.running;
  worker_id = some worker;
  attempt_count = j.attempt_count + 1;
  started_at = some now;
  lease_expires_at = some (now + lease);
  heartbeat_at = some now;
  completed_at = none;
  result = none;
  updated_at = now;
}

unfoldable pub claimable : List String → ℕ → List ℕ → List Job → List Job
claimable queues now locked db =
    order_by claim_order
      (select_where (λ j. is_ready queues now j && not (contains_id j.id locked)) db)

abbrev pub is_empty {ℓ} : {A : Type ℓ} → List A → Bool
is_empty [] = true
is_empty (a ∷ as') = false

unfoldable pub claim_jobs :
    String → List String → ℕ → ℕ → ℕ → List ℕ → List Job → List Job × List Job
claim_jobs worker queues limit lease now locked db =
    let jobs = take limit (claimable queues now locked db) in
    if is_empty queues || ltb limit 1
    then ([], db)
    else (map (claim worker now lease) jobs, write_each job_id (claim worker now lease) jobs db)

abbrev pub is_after : Option ℕ → ℕ → Bool
is_after none now = false
is_after (some t) now = ltb now t

-- The guard that every worker-owned update shares: RUNNING, this worker's, under a live lease.
unfoldable pub is_owned : String → ℕ → Job → Bool
is_owned worker now j =
    is_running j.status && opt_str_eq j.worker_id worker && is_after j.lease_expires_at now

-- UPDATE ... WHERE id = k AND p, with `rowcount == 1`.
unfoldable pub update_one : ℕ → (Job → Bool) → (Job → Job) → List Job → Bool × List Job
update_one k p f db =
    (length (select_where (at_key job_id k p) db) == 1, update_where (at_key job_id k p) f db)

unfoldable pub renew : ℕ → ℕ → Job → Job
renew now lease j = record j {
  heartbeat_at = some now;
  lease_expires_at = some (now + lease);
  updated_at = now;
}

unfoldable pub renew_lease : ℕ → String → ℕ → ℕ → List Job → Bool × List Job
renew_lease k worker lease now = update_one k (is_owned worker now) (renew now lease)

unfoldable pub succeed : String → ℕ → Job → Job
succeed payload now j = record j {
  status = JobStatus.succeeded;
  result = some payload;
  last_error = none;
  completed_at = some now;
  lease_expires_at = none;
  heartbeat_at = none;
  updated_at = now;
}

unfoldable pub mark_succeeded : ℕ → String → String → ℕ → List Job → Bool × List Job
mark_succeeded k worker payload now = update_one k (is_owned worker now) (succeed payload now)

-- `truncate` stands for the slice `error_message[:4000]` of Python's `str`.
module _ (truncate : String → String) where
  -- The settings of a failure report: retryable, base delay, maximal delay.
  unfoldable pub fail : String → Bool → ℕ → ℕ → ℕ → Job → Job
  fail message retryable base max_delay now j =
      let reported : Job = record j {
        result = none;
        last_error = some (truncate message);
        updated_at = now;
        lease_expires_at = none;
        heartbeat_at = none;
      } in
      if should_retry_job retryable j.attempt_count j.max_attempts
      then record reported {
        status = JobStatus.retry_scheduled;
        available_at = now + calculate_retry_delay j.attempt_count base max_delay;
        worker_id = none;
        completed_at = none;
      }
      else record reported { status = JobStatus.dead_lettered; completed_at = some now }

  unfoldable pub report_failure :
      String → Bool → ℕ → ℕ → ℕ → Option Job → List Job → Option JobStatus × List Job
  report_failure message retryable base max_delay now none db = (none, db)
  report_failure message retryable base max_delay now (some j) db =
      let failed = fail message retryable base max_delay now j in
      (
        some failed.status,
        write_each job_id (fail message retryable base max_delay now) (j ∷ []) db,
      )

  unfoldable pub mark_failed :
      ℕ → String → String → Bool → ℕ → ℕ → ℕ → List Job → Option JobStatus × List Job
  mark_failed k worker message retryable base max_delay now db =
      report_failure message retryable base max_delay now
        (scalar (select_where (at_key job_id k (is_owned worker now)) db)) db

abbrev pub lease_is_over : Option ℕ → ℕ → Bool
lease_is_over none now = true
lease_is_over (some t) now = leb t now

-- The WHERE test of `recover_stale_jobs`.
unfoldable pub is_stale : ℕ → Job → Bool
is_stale now j = is_running j.status && lease_is_over j.lease_expires_at now

-- ORDER BY lease_expires_at ASC NULLS FIRST, id ASC
abbrev pub stale_order_by : Option ℕ → Option ℕ → Bool → Bool
stale_order_by none none tie = tie
stale_order_by none (some t) tie = true
stale_order_by (some s) none tie = false
stale_order_by (some s) (some t) tie = if ltb s t then true else if ltb t s then false else tie

unfoldable pub stale_order : Job → Job → Bool
stale_order a b = stale_order_by a.lease_expires_at b.lease_expires_at (by_id a b)

unfoldable pub recover : ℕ → Job → Job
recover now j =
    let released : Job = record j {
      worker_id = none;
      heartbeat_at = none;
      lease_expires_at = none;
      result = none;
      last_error = some "Worker lease expired before job completion";
      updated_at = now;
    } in
    if should_retry_job true j.attempt_count j.max_attempts
    then record released {
      status = JobStatus.retry_scheduled;
      available_at = now;
      completed_at = none;
    }
    else record released { status = JobStatus.dead_lettered; completed_at = some now }

-- The two counters of the loop: rows scheduled for a retry, and rows dead-lettered.
unfoldable pub tally_recovered : List Job → ℕ × ℕ → ℕ × ℕ
tally_recovered [] counts = counts
tally_recovered (j ∷ jobs) (retry_scheduled_count, dead_lettered_count) = tally_recovered jobs (
    if should_retry_job true j.attempt_count j.max_attempts
    then (retry_scheduled_count + 1, dead_lettered_count)
    else (retry_scheduled_count, dead_lettered_count + 1))

unfoldable pub stale_jobs : ℕ → List ℕ → List Job → List Job
stale_jobs now locked db =
    order_by stale_order (select_where (λ j. is_stale now j && not (contains_id j.id locked)) db)

unfoldable pub recover_stale_jobs : ℕ → ℕ → List ℕ → List Job → (ℕ × ℕ) × List Job
recover_stale_jobs limit now locked db =
    let jobs = take limit (stale_jobs now locked db) in
    if ltb limit 1
    then ((0, 0), db)
    else (tally_recovered jobs (0, 0), write_each job_id (recover now) jobs db)
