-- ===== src/Jobs/Queue/Ownership.antt =====
-- The worker-owned updates succeed exactly for the owner of a live lease, and change nothing else.
use software_engineering_car.Common.{
  ℕ, String, ◌≡◌, refl, Bool, Option, none, some, [], ◌∷◌, inl, inr, arith, ◌==◌, Option-cases,
  length, if◌then◌else◌, str_eq, ltb, ◌&&◌, ◌+◌, opt_str_eq, Bool-cases, ==_refl, ◌∙◌, false,
}
use software_engineering_car.Common.Table.{
  UniqueKeys, has_key, at_key, has_row, if_row, row_list, update_row, row_at-update_where,
  row_at-write_each, select_where-at_key, key-row_at, scalar-row_list, if_row-some,
}
use software_engineering_car.Jobs.Model.{
  JobStatus, Job, job_id, is_running, should_retry_job, calculate_retry_delay,
}
use software_engineering_car.Jobs.Queue.{
  is_owned, update_one, renew, renew_lease, succeed, mark_succeeded, fail, mark_failed,
  report_failure, is_after,
}
use software_engineering_car.Jobs.Queue.Keys.{fail-id}
use software_engineering_car.Jobs.Queue.Rows.{Table, job_at}

-- What a guarded write to row `i` leaves at row `k`.
abbrev pub written : ℕ → (Job → Bool) → (Job → Job) → ℕ → Table → Option Job
written i p f k db = if k == i then update_row p f (job_at k db) else job_at k db

module _ (i : ℕ) (p : Job → Bool) (f : Job → Job) (keeps : (j : Job) → (f j).id ≡ j.id)
    (db : Table) where
  -- The row count is one exactly if the row with the id is there and passes the test.
  update_one-reply : UniqueKeys job_id db → (update_one i p f db).0 ≡ has_row p (job_at i db)
  unfolding update_one
  update_one-reply u = rw (select_where-at_key job_id p i db u) (count (job_at i db))
    where
      count : (o : Option Job) → (length (row_list (if_row p o)) == 1) ≡ has_row p o
      count none = refl
      count (some j) = ground arith

  update_one-row : (k : ℕ) → job_at k (update_one i p f db).1 ≡ written i p f k db
  unfolding update_one
  update_one-row k = elim (Option-cases (job_at k db)) [
    | inl e ↦ ground (arith, row_at-update_where job_id (at_key job_id i p) f k db keeps)
    | inr (a, e) ↦ ground (
      arith,
      row_at-update_where job_id (at_key job_id i p) f k db keeps,
      key-row_at job_id k db a e,
    )
  ]

-- On a table with unique ids, `renew_lease` answers True exactly if the job is RUNNING, this
-- worker's and under a live lease; then the lease is extended, and no other row is touched.
pub renew_lease_exact :
    (i : ℕ) (worker : String) (lease now : ℕ) (db : Table)
    → UniqueKeys job_id db
    → ((renew_lease i worker lease now db).0 ≡ has_row (is_owned worker now) (job_at i db))
      × ((k : ℕ)
          → job_at k (renew_lease i worker lease now db).1
            ≡ written i (is_owned worker now) (renew now lease) k db)
unfolding renew_lease renew
renew_lease_exact i worker lease now db u = (
  update_one-reply i (is_owned worker now) (renew now lease) (λ j. refl) db u,
  update_one-row i (is_owned worker now) (renew now lease) (λ j. refl) db,
)

-- On a table with unique ids, `mark_succeeded` answers True exactly if the job is RUNNING, this
-- worker's and under a live lease; then its row is completed with the result, and no other row is
-- touched.
pub mark_succeeded_exact :
    (i : ℕ) (worker payload : String) (now : ℕ) (db : Table)
    → UniqueKeys job_id db
    → ((mark_succeeded i worker payload now db).0 ≡ has_row (is_owned worker now) (job_at i db))
      × ((k : ℕ)
          → job_at k (mark_succeeded i worker payload now db).1
            ≡ written i (is_owned worker now) (succeed payload now) k db)
unfolding mark_succeeded succeed
mark_succeeded_exact i worker payload now db u = (
  update_one-reply i (is_owned worker now) (succeed payload now) (λ j. refl) db u,
  update_one-row i (is_owned worker now) (succeed payload now) (λ j. refl) db,
)

unwritten :
    (p : Job → Bool) (f : Job → Job) (o : Option Job) → if_row p o ≡ none → update_row p f o ≡ o
unwritten p f none h = refl
unwritten p f (some j) h = ground arith

module _ (truncate : String → String) where
  -- The status that `mark_failed` reports for the row that it found.
  abbrev pub status_of : (Job → Job) → Option Job → Option JobStatus
  status_of f none = none
  status_of f (some j) = some (f j).status

  module _ (i : ℕ) (worker message : String) (retryable : Bool) (base max_delay now : ℕ)
      (db : Table) where
    abbrev pub failing : Job → Job
    failing = fail truncate message retryable base max_delay now

    report_failure_exact :
        (o : Option Job)
        → if_row (is_owned worker now) (job_at i db) ≡ o
        → ((report_failure truncate message retryable base max_delay now o db).0
            ≡ status_of failing o)
          × ((k : ℕ)
              → job_at k (report_failure truncate message retryable base max_delay now o db).1
                ≡ written i (is_owned worker now) failing k db)
    unfolding report_failure has_key
    report_failure_exact none h =
        (refl, λ k. ground (arith, unwritten (is_owned worker now) failing (job_at i db)))
    report_failure_exact (some j) h =
        let keeps = fail-id truncate message retryable base max_delay now in
        let (found, owned) = if_row-some (is_owned worker now) (job_at i db) j h in
        (
          refl,
          λ k. ground (
            arith,
            row_at-write_each job_id failing keeps k (j ∷ []) db (refl, tt),
            key-row_at job_id i db j found,
          ),
        )

    -- The reply and the rows in terms of the row that was found.
    pub mark_failed_rows :
        UniqueKeys job_id db
        → ((mark_failed truncate i worker message retryable base max_delay now db).0
            ≡ status_of failing (if_row (is_owned worker now) (job_at i db)))
          × ((k : ℕ)
              → job_at k (mark_failed truncate i worker message retryable base max_delay now db).1
                ≡ written i (is_owned worker now) failing k db)
    unfolding mark_failed
    mark_failed_rows u =
        rw (select_where-at_key job_id (is_owned worker now) i db u, scalar-row_list)
          (report_failure_exact (if_row (is_owned worker now) (job_at i db)) refl)

-- Whether a job is RUNNING under a lease of the worker that ends after `now`.
abbrev pub works_on : String → ℕ → JobStatus → Option String → Option ℕ → Bool
works_on worker now JobStatus.running (some holder) (some expiry) =
    str_eq holder worker && ltb now expiry
works_on worker now _ _ _ = false

-- What a failure report makes of a job's row, and answers.
abbrev pub failure_outcome :
    String → String → Bool → ℕ → ℕ → ℕ → Option Job → Option JobStatus × Option Job
failure_outcome worker message retryable base max_delay now none = (none, none)
failure_outcome worker message retryable base max_delay now (some j) =
    if works_on worker now j.status j.worker_id j.lease_expires_at
    then if retryable && ltb j.attempt_count j.max_attempts
      then (
        some JobStatus.retry_scheduled,
        some (record j {
          status = JobStatus.retry_scheduled;
          available_at = now + calculate_retry_delay j.attempt_count base max_delay;
          worker_id = none;
          completed_at = none;
          result = none;
          last_error = some message;
          updated_at = now;
          lease_expires_at = none;
          heartbeat_at = none;
        }),
      )
      else (
        some JobStatus.dead_lettered,
        some (record j {
          status = JobStatus.dead_lettered;
          completed_at = some now;
          result = none;
          last_error = some message;
          updated_at = now;
          lease_expires_at = none;
          heartbeat_at = none;
        }),
      )
    else (none, some j)

owned_working :
    (worker : String) (now : ℕ) (j : Job)
    → is_owned worker now j ≡ works_on worker now j.status j.worker_id j.lease_expires_at
unfolding is_owned
owned_working worker now j = cases j.status j.worker_id j.lease_expires_at
  where
    cases :
        (s : JobStatus) (o : Option String) (e : Option ℕ)
        → (is_running s && opt_str_eq o worker && is_after e now) ≡ works_on worker now s o e
    cases JobStatus.queued o e = refl
    cases JobStatus.retry_scheduled o e = refl
    cases JobStatus.succeeded o e = refl
    cases JobStatus.dead_lettered o e = refl
    cases JobStatus.cancelled o e = refl
    cases JobStatus.running none e = refl
    cases JobStatus.running (some v) none = ground arith
    cases JobStatus.running (some v) (some t) = refl

module _ (truncate : String → String) (i : ℕ) (worker message : String) (retryable : Bool)
    (base max_delay now : ℕ) where
  abbrev outcome_of : Option Job → Option JobStatus × Option Job
  outcome_of = failure_outcome worker (truncate message) retryable base max_delay now

  abbrev failed_as : Job → Job
  failed_as = fail truncate message retryable base max_delay now

  reported :
      (o : Option Job)
      → (status_of truncate failed_as (if_row (is_owned worker now) o) ≡ (outcome_of o).0)
        × (update_row (is_owned worker now) failed_as o ≡ (outcome_of o).1)
  unfolding fail should_retry_job
  reported none = (refl, refl)
  reported (some j) =
      let same = owned_working worker now j in
      elim (Bool-cases (retryable && ltb j.attempt_count j.max_attempts)) [
        | inl e ↦ (ground (arith, same, e), ground (arith, same, e))
        | inr e ↦ (ground (arith, same, e), ground (arith, same, e))
      ]

  -- On a table with unique ids, where the row with the id is RUNNING under a lease of this worker
  -- that ends after now, `mark_failed` answers RETRY_SCHEDULED, and schedules the row after the
  -- delay, if the failure is retryable and attempts are left, and else answers DEAD_LETTERED and
  -- completes it; the message is stored, the lease and the result are cleared. Where there is no
  -- such row it answers None and changes nothing. No other row is touched.
  pub mark_failed_exact :
      (db : Table)
      → UniqueKeys job_id db
      → let (status, after) =
          mark_failed truncate i worker message retryable base max_delay now db in
        (status
          ≡ (failure_outcome worker
              (truncate message)
              retryable
              base
              max_delay
              now
              (job_at i db)).0)
        × (job_at i after
            ≡ (failure_outcome worker
                (truncate message)
                retryable
                base
                max_delay
                now
                (job_at i db)).1)
        × ((k : ℕ) → (k == i) ≡ false → job_at k after ≡ job_at k db)
  mark_failed_exact db u =
      let (status, rows) =
        mark_failed_rows truncate i worker message retryable base max_delay now db u in
      let (answer, row) = reported (job_at i db) in
      (status ∙ answer, rows i ∙ rw (==_refl i) row, λ k h. rows k ∙ rw h refl)
