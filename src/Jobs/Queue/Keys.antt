-- ===== src/Jobs/Queue/Keys.antt =====
-- The queue's operations neither add a job nor drop one, and ids stay unique.
use software_engineering_car.Common.{
  ℕ, String, ◌≡◌, refl, Bool, ◌||◌, Option, none, some, List, [], ◌∷◌, inl, inr, arith, ltb, take,
  Bool-cases,
}
use software_engineering_car.Common.Table.{
  UniqueKeys, has_key, at_key, has_key-update_where, has_key-write_each, update_where-UniqueKeys,
  write_each-UniqueKeys,
}
use software_engineering_car.Jobs.Model.{Job, job_id}
use software_engineering_car.Jobs.Queue.{
  claim, claimable, claim_jobs, is_owned, update_one, renew, renew_lease, succeed, mark_succeeded,
  fail, mark_failed, report_failure, recover, stale_jobs, recover_stale_jobs, is_empty,
}
use software_engineering_car.Jobs.Queue.Rows.{Table}

pub fail-id :
    (truncate : String → String) (message : String) (retryable : Bool) (base max_delay now : ℕ)
    (j : Job)
    → (fail truncate message retryable base max_delay now j).id ≡ j.id
unfolding fail
fail-id truncate message retryable base max_delay now j = ground arith

pub recover-id : (now : ℕ) (j : Job) → (recover now j).id ≡ j.id
unfolding recover
recover-id now j = ground arith

pub claim_jobs-UniqueKeys :
    (worker : String) (queues : List String) (limit lease now : ℕ) (locked : List ℕ) (db : Table)
    → UniqueKeys job_id db
    → UniqueKeys job_id (claim_jobs worker queues limit lease now locked db).1
unfolding claim_jobs claim
claim_jobs-UniqueKeys worker queues limit lease now locked db u =
    elim (Bool-cases (is_empty queues || ltb limit 1)) [
      | inl e ↦ rw e u
      | inr e ↦ rw e (
          write_each-UniqueKeys job_id (claim worker now lease) (λ j. refl)
            (take limit (claimable queues now locked db)) db u)
    ]

pub renew_lease-UniqueKeys :
    (i : ℕ) (worker : String) (lease now : ℕ) (db : Table)
    → UniqueKeys job_id db
    → UniqueKeys job_id (renew_lease i worker lease now db).1
unfolding renew_lease update_one renew
renew_lease-UniqueKeys i worker lease now db =
    update_where-UniqueKeys job_id (at_key job_id i (is_owned worker now)) (renew now lease) db
      (λ j. refl)

pub mark_succeeded-UniqueKeys :
    (i : ℕ) (worker payload : String) (now : ℕ) (db : Table)
    → UniqueKeys job_id db
    → UniqueKeys job_id (mark_succeeded i worker payload now db).1
unfolding mark_succeeded update_one succeed
mark_succeeded-UniqueKeys i worker payload now db =
    update_where-UniqueKeys job_id (at_key job_id i (is_owned worker now)) (succeed payload now) db
      (λ j. refl)

module _ (truncate : String → String) where
  report_failure-UniqueKeys :
      (message : String) (retryable : Bool) (base max_delay now : ℕ) (o : Option Job) (db : Table)
      → UniqueKeys job_id db
      → UniqueKeys job_id (report_failure truncate message retryable base max_delay now o db).1
  unfolding report_failure
  report_failure-UniqueKeys message retryable base max_delay now none db u = u
  report_failure-UniqueKeys message retryable base max_delay now (some j) db u =
      write_each-UniqueKeys job_id (fail truncate message retryable base max_delay now)
        (fail-id truncate message retryable base max_delay now) (j ∷ []) db u

  pub mark_failed-UniqueKeys :
      (i : ℕ) (worker message : String) (retryable : Bool) (base max_delay now : ℕ) (db : Table)
      → UniqueKeys job_id db
      → UniqueKeys job_id (mark_failed truncate i worker message retryable base max_delay now db).1
  unfolding mark_failed
  mark_failed-UniqueKeys i worker message retryable base max_delay now db u =
      report_failure-UniqueKeys message retryable base max_delay now _ db u

pub recover_stale_jobs-UniqueKeys :
    (limit now : ℕ) (locked : List ℕ) (db : Table)
    → UniqueKeys job_id db
    → UniqueKeys job_id (recover_stale_jobs limit now locked db).1
unfolding recover_stale_jobs
recover_stale_jobs-UniqueKeys limit now locked db u = elim (Bool-cases (ltb limit 1)) [
  | inl e ↦ rw e u
  | inr e ↦ rw e (
      write_each-UniqueKeys job_id (recover now) (recover-id now)
        (take limit (stale_jobs now locked db)) db u)
]

-- The same ids are in the table before and after.
module _ (k : ℕ) where
  pub has_key-claim_jobs :
      (worker : String) (queues : List String) (limit lease now : ℕ) (locked : List ℕ) (db : Table)
      → has_key job_id k (claim_jobs worker queues limit lease now locked db).1
        ≡ has_key job_id k db
  unfolding claim_jobs claim
  has_key-claim_jobs worker queues limit lease now locked db =
      elim (Bool-cases (is_empty queues || ltb limit 1)) [
        | inl e ↦ ground arith
        | inr e ↦ ground (
          arith,
          has_key-write_each job_id (claim worker now lease) (λ j. refl) k
              (take limit (claimable queues now locked db)) db,
        )
      ]

  pub has_key-renew_lease :
      (i : ℕ) (worker : String) (lease now : ℕ) (db : Table)
      → has_key job_id k (renew_lease i worker lease now db).1 ≡ has_key job_id k db
  unfolding renew_lease update_one renew
  has_key-renew_lease i worker lease now db =
      has_key-update_where job_id (at_key job_id i (is_owned worker now)) (renew now lease) k db
        (λ j. refl)

  pub has_key-mark_succeeded :
      (i : ℕ) (worker payload : String) (now : ℕ) (db : Table)
      → has_key job_id k (mark_succeeded i worker payload now db).1 ≡ has_key job_id k db
  unfolding mark_succeeded update_one succeed
  has_key-mark_succeeded i worker payload now db =
      has_key-update_where job_id (at_key job_id i (is_owned worker now)) (succeed payload now) k db
        (λ j. refl)

  has_key-report_failure :
      (truncate : String → String) (message : String) (retryable : Bool) (base max_delay now : ℕ)
      (o : Option Job) (db : Table)
      → has_key job_id k (report_failure truncate message retryable base max_delay now o db).1
        ≡ has_key job_id k db
  unfolding report_failure
  has_key-report_failure truncate message retryable base max_delay now none db = refl
  has_key-report_failure truncate message retryable base max_delay now (some j) db =
      has_key-write_each job_id (fail truncate message retryable base max_delay now)
        (fail-id truncate message retryable base max_delay now) k (j ∷ []) db

  pub has_key-mark_failed :
      (truncate : String → String) (i : ℕ) (worker message : String) (retryable : Bool)
      (base max_delay now : ℕ) (db : Table)
      → has_key job_id k (mark_failed truncate i worker message retryable base max_delay now db).1
        ≡ has_key job_id k db
  unfolding mark_failed
  has_key-mark_failed truncate i worker message retryable base max_delay now db =
      has_key-report_failure truncate message retryable base max_delay now _ db

  pub has_key-recover_stale_jobs :
      (limit now : ℕ) (locked : List ℕ) (db : Table)
      → has_key job_id k (recover_stale_jobs limit now locked db).1 ≡ has_key job_id k db
  unfolding recover_stale_jobs
  has_key-recover_stale_jobs limit now locked db = elim (Bool-cases (ltb limit 1)) [
    | inl e ↦ ground arith
    | inr e ↦ ground (
      arith,
      has_key-write_each job_id (recover now) (recover-id now) k
          (take limit (stale_jobs now locked db)) db,
    )
  ]
