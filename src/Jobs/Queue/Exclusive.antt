-- ===== src/Jobs/Queue/Exclusive.antt =====
-- Two claims never hand out one job, whoever makes them and whatever rows are locked.
use software_engineering_car.Common.{ℕ, String, ◌≡◌, true, false, List, inl, inr, arith, Bool-cases}
use software_engineering_car.Common.Table.{UniqueKeys, has_key}
use software_engineering_car.Jobs.Model.{Job, job_id}
use software_engineering_car.Jobs.Queue.{is_ready, claim}
use software_engineering_car.Jobs.Queue.Keys.{claim_jobs-UniqueKeys}
use software_engineering_car.Jobs.Queue.Claims.{reply, after_claim, picks, claim_jobs_row}
use software_engineering_car.Jobs.Queue.Rows.{Table}

claimed_not_picked :
    (worker : String) (queues : List String) (now lease later : ℕ) (locked : List ℕ) (j : Job)
    → picks queues later locked (claim worker now lease j) ≡ false
unfolding is_ready claim
claimed_not_picked worker queues now lease later locked j = ground arith

-- On a table with unique ids, a job that one claim returned is not returned by the claim that
-- follows it, whatever the two claims' workers, queues, limits, times and locked rows.
pub claim_jobs_disjoint :
    (worker worker' : String) (queues queues' : List String)
    (limit limit' lease lease' now now' : ℕ) (locked locked' : List ℕ) (k : ℕ) (db : Table)
    → UniqueKeys job_id db
    → has_key job_id k (reply worker queues limit lease now locked db) ≡ true
    → has_key job_id k (
        reply worker' queues' limit' lease' now' locked'
          (after_claim worker queues limit lease now locked db))
      ≡ false
claim_jobs_disjoint worker worker' queues queues' limit limit' lease lease' now now' locked locked'
      k db u h =
    let db' = after_claim worker queues limit lease now locked db in
    let u' = claim_jobs-UniqueKeys worker queues limit lease now locked db u in
    let (a, _, _, _, row) = claim_jobs_row worker queues limit lease now locked k db u h in
    elim (Bool-cases (has_key job_id k (reply worker' queues' limit' lease' now' locked' db'))) [
      | inl t ↦
          let (c, row', picked, _, _) =
            claim_jobs_row worker' queues' limit' lease' now' locked' k db' u' t in
          let same : claim worker now lease a ≡ c = cc (row, row') in
          absurd (ground (arith, claimed_not_picked worker queues' now lease now' locked' a, same))
      | inr f ↦ f
    ]
