-- ===== src/Jobs/Queue/Claims.antt =====
-- What `claim_jobs` picks: ready rows that nobody holds locked, in the order of priority and age.
use software_engineering_car.Common.{
  ℕ, ◌+◌, ◌≤◌, String, none, ◌⊎◌, ◌≡◌, refl, sym, ap, ◌∙◌, Bool, true, false, not, ◌&&◌, ◌||◌, some,
  List, [], inl, inr, arith, ltb, take, map, Bool-cases, Option-cases,
}
use mathlib.Core.Bool.{false≢true}
use software_engineering_car.Common.Sorting.{order_by}
use software_engineering_car.Common.Table.{
  UniqueKeys, has_key, map_row, select_where, write_each, row_at-write_each, batch-UniqueKeys,
  has_row-batch, row_at-batch, has_key-map, row_at-map,
}
use software_engineering_car.Jobs.Model.{JobStatus, Job, job_id, is_waiting}
use software_engineering_car.Jobs.Queue.{
  is_ready, claim_order, claim, contains_id, claimable, claim_jobs, is_empty, contains_str,
}
use software_engineering_car.Jobs.Queue.Rows.{Table, job_at}

-- The test of the SELECT: ready, and not passed over as locked.
abbrev pub picks : List String → ℕ → List ℕ → Job → Bool
picks queues now locked j = is_ready queues now j && not (contains_id j.id locked)

module _ (worker : String) (queues : List String) (limit lease now : ℕ) (locked : List ℕ) where
  -- The jobs that one call returns, and the table that it leaves.
  abbrev pub reply : Table → List Job
  reply db = (claim_jobs worker queues limit lease now locked db).0

  abbrev pub after_claim : Table → Table
  after_claim db = (claim_jobs worker queues limit lease now locked db).1

  abbrev batch : Table → List Job
  batch db = take limit (order_by claim_order (select_where (picks queues now locked) db))

  reply_idle : (db : Table) → (is_empty queues || ltb limit 1) ≡ true → reply db ≡ []
  unfolding claim_jobs
  reply_idle db e = rw (e, reply)

  after_idle : (db : Table) → (is_empty queues || ltb limit 1) ≡ true → after_claim db ≡ db
  unfolding claim_jobs
  after_idle db e = rw (e, after_claim)

  reply_busy :
      (db : Table)
      → (is_empty queues || ltb limit 1) ≡ false
      → reply db ≡ map (claim worker now lease) (batch db)
  unfolding claim_jobs claimable
  reply_busy db e = rw (e, reply)

  after_busy :
      (db : Table)
      → (is_empty queues || ltb limit 1) ≡ false
      → after_claim db ≡ write_each job_id (claim worker now lease) (batch db) db
  unfolding claim_jobs claimable
  after_busy db e = rw (e, after_claim)

  has_key-reply :
      (k : ℕ) (db : Table) → has_key job_id k (reply db) ≡ true → has_key job_id k (batch db) ≡ true
  unfolding has_key claim
  has_key-reply k db h = elim (Bool-cases (is_empty queues || ltb limit 1)) [
    | inl e ↦ absurd (false≢true (rw (reply_idle db e) at h))
    | inr e ↦
        let all_there : has_key job_id k (reply db) ≡ has_key job_id k (batch db) =
          rw (reply_busy db e)
            (has_key-map job_id (claim worker now lease) k (batch db) (λ j. refl)) in
        sym all_there ∙ h
  ]

  not_idle :
      (k : ℕ) (db : Table)
      → has_key job_id k (reply db) ≡ true
      → (is_empty queues || ltb limit 1) ≡ false
  unfolding has_key
  not_idle k db h = elim (Bool-cases (is_empty queues || ltb limit 1)) [
    | inl e ↦ absurd (false≢true (rw (reply_idle db e) at h))
    | inr e ↦ e
  ]

  -- The row of a job that a claim returns, before it and after.
  pub claim_jobs_row :
      (k : ℕ) (db : Table)
      → UniqueKeys job_id db
      → has_key job_id k (reply db) ≡ true
      → (a : Job) × (job_at k db ≡ some a)
        × (picks queues now locked a ≡ true)
        × (job_at k (reply db) ≡ some (claim worker now lease a))
        × (job_at k (after_claim db) ≡ some (claim worker now lease a))
  unfolding claim
  claim_jobs_row k db u h =
      let e = not_idle k db h in
      let inside = has_key-reply k db h in
      let passes = has_row-batch job_id claim_order (picks queues now locked) limit db u k inside in
      elim (Option-cases (job_at k db)) [
        | inl absent ↦ absurd (ground arith)
        | inr (a, found) ↦ (
          a,
          found,
          (rw found at passes),
          rw (reply_busy db e) (
              row_at-map job_id (claim worker now lease) k (batch db) (λ j. refl)
              ∙ ap (map_row job_id (claim worker now lease))
                  (row_at-batch job_id claim_order (picks queues now locked) limit db u k inside)
              ∙ rw (found, (rw found at passes))),
          rw (after_busy db e) (
              row_at-write_each job_id (claim worker now lease) (λ j. refl) k (batch db) db
                (batch-UniqueKeys job_id claim_order (picks queues now locked) limit db u)
              ∙ rw (inside, found)),
        )
      ]

  waiting :
      (s : JobStatus)
      → is_waiting s ≡ true
      → (s ≡ JobStatus.queued) ⊎ (s ≡ JobStatus.retry_scheduled)
  waiting JobStatus.queued h = inl refl
  waiting JobStatus.retry_scheduled h = inr refl
  waiting JobStatus.running h = absurd (ground (arith, h))
  waiting JobStatus.succeeded h = absurd (ground (arith, h))
  waiting JobStatus.dead_lettered h = absurd (ground (arith, h))
  waiting JobStatus.cancelled h = absurd (ground (arith, h))

  -- On a table with unique ids, every job that a claim returns was QUEUED or RETRY_SCHEDULED in one
  -- of the queues, available by now and not locked by others; in the reply and in the table alike
  -- it is RUNNING now under this worker's lease from now on, one attempt further, with its start
  -- set and its end and result cleared, and all else kept.
  pub claim_jobs_claimed :
      (k : ℕ) (db : Table)
      → UniqueKeys job_id db
      → has_key job_id k (reply db) ≡ true
      → (a : Job) × (job_at k db ≡ some a)
        × ((a.status ≡ JobStatus.queued) ⊎ (a.status ≡ JobStatus.retry_scheduled))
        × (contains_str a.queue queues ≡ true)
        × (a.available_at ≤ now)
        × (contains_id a.id locked ≡ false)
        × ((b : Job) × (b ≡ record a {
          status = JobStatus.running;
          worker_id = some worker;
          attempt_count = a.attempt_count + 1;
          started_at = some now;
          lease_expires_at = some (now + lease);
          heartbeat_at = some now;
          completed_at = none;
          result = none;
          updated_at = now;
        })
            × (job_at k (reply db) ≡ some b)
            × (job_at k (after_claim db) ≡ some b))
  unfolding is_ready claim
  claim_jobs_claimed k db u h =
      let (a, there, ready, replied, stored) = claim_jobs_row k db u h in
      (
        a,
        there,
        waiting a.status (ground (arith, ready)),
        ground (arith, ready),
        ground (arith, ready),
        ground (arith, ready),
        (claim worker now lease a, refl, replied, stored),
      )

  has_key-reply_busy :
      (k : ℕ) (db : Table)
      → (is_empty queues || ltb limit 1) ≡ false
      → has_key job_id k (reply db) ≡ has_key job_id k (batch db)
  unfolding claim
  has_key-reply_busy k db e =
      rw (reply_busy db e) (has_key-map job_id (claim worker now lease) k (batch db) (λ j. refl))

  -- A row that is not returned is left as it was.
  pub claim_jobs_others :
      (k : ℕ) (db : Table)
      → UniqueKeys job_id db
      → has_key job_id k (reply db) ≡ false
      → job_at k (after_claim db) ≡ job_at k db
  unfolding claim
  claim_jobs_others k db u h = elim (Bool-cases (is_empty queues || ltb limit 1)) [
    | inl e ↦ rw (after_idle db e)
    | inr e ↦ rw (after_busy db e) (
        row_at-write_each job_id (claim worker now lease) (λ j. refl) k (batch db) db
          (batch-UniqueKeys job_id claim_order (picks queues now locked) limit db u)
        ∙ rw (sym (has_key-reply_busy k db e) ∙ h))
  ]
