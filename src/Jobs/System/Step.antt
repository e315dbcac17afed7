-- ===== src/Jobs/System/Step.antt =====
-- One transaction keeps the table sound, and moves each row by the state machine.
use mathlib.Core.Path.{subst}
use software_engineering_car.Common.{
  ℕ, String, ◌≡◌, refl, sym, ◌∙◌, true, false, Option, none, some, ◌∷◌, inl, inr, arith, ◌⊎◌,
}
use software_engineering_car.Common.Table.{
  UniqueKeys, has_key, row_at, has_key-row_at, has_key-some,
}
use software_engineering_car.Jobs.Model.{Job, job_id}
use software_engineering_car.Jobs.Queue.Rows.{Table, job_at}
use software_engineering_car.Jobs.Queue.Invariant.{IsConsistent, Transition-IsConsistent}
use software_engineering_car.Jobs.Queue.Keys.{
  has_key-claim_jobs, has_key-renew_lease, has_key-mark_succeeded, has_key-mark_failed,
  has_key-recover_stale_jobs, claim_jobs-UniqueKeys, renew_lease-UniqueKeys,
  mark_succeeded-UniqueKeys, mark_failed-UniqueKeys, recover_stale_jobs-UniqueKeys,
}
use software_engineering_car.Jobs.Queue.Transition.{stays}
use software_engineering_car.Jobs.Queue.Lifecycle.{
  Moves, claim_jobs-Moves, renew_lease-Moves, mark_succeeded-Moves, mark_failed-Moves,
  recover_stale_jobs-Moves,
}
use software_engineering_car.Jobs.Submission.{JobCreate, in_limits, new_job}
use software_engineering_car.Jobs.Submission.Idempotency.{
  Stored, unchanged, added_unkeyed, added_keyed, create_job-Stored,
}
use software_engineering_car.Jobs.System.{
  Op, submit, claim, renew, complete, fail, recover, op_actor, op_time, apply, Admissible,
}

-- Ids are unique, and the columns of every row fit together.
pub record IsSound (db : Table) : Type 0 where
  pub keys : UniqueKeys job_id db
  pub rows : (k : ℕ) (j : Job) → job_at k db ≡ some j → IsConsistent j

new_job-IsConsistent :
    (d : JobCreate) (new_id now : ℕ) → in_limits d ≡ true → IsConsistent (new_job d new_id now)
unfolding in_limits new_job
new_job-IsConsistent d new_id now h = ground arith

module _ (truncate : String → String) where
  added-Moves :
      (d : JobCreate) (new_id now : ℕ) (db : Table)
      → has_key job_id new_id db ≡ false
      → Moves truncate none now db (new_job d new_id now ∷ db)
  unfolding row_at new_job
  added-Moves d new_id now db fresh k a h =
      (a, ground (arith, has_key-row_at job_id k db a h), stays refl)

  submit-Moves :
      (d : JobCreate) (new_id now : ℕ) {db db' : Table}
      → Stored d new_id now db db'
      → has_key job_id new_id db ≡ false
      → Moves truncate none now db db'
  submit-Moves d new_id now (unchanged e) fresh k a h = (a, rw e h, stays refl)
  submit-Moves d new_id now {db} (added_unkeyed x e) fresh k a h =
      subst (Moves truncate none now db) (sym e) (added-Moves d new_id now db fresh) k a h
  submit-Moves d new_id now {db} (added_keyed key x y e) fresh k a h =
      subst (Moves truncate none now db) (sym e) (added-Moves d new_id now db fresh) k a h

  pub apply-Moves :
      (op : Op) (db : Table)
      → UniqueKeys job_id db
      → Admissible truncate op db
      → Moves truncate (op_actor op) (op_time op) db (apply truncate op db)
  unfolding apply
  apply-Moves (submit d new_id now) db u h =
      submit-Moves d new_id now (create_job-Stored d new_id now db) h.1
  apply-Moves (claim worker queues limit lease now locked) db u h =
      claim_jobs-Moves truncate worker queues limit lease now locked db u
  apply-Moves (renew i worker lease now) db u h = renew_lease-Moves truncate i worker lease now db
  apply-Moves (complete i worker payload now) db u h =
      mark_succeeded-Moves truncate i worker payload now db
  apply-Moves (fail i worker message retryable base max_delay now) db u h =
      mark_failed-Moves truncate i worker message retryable base max_delay now db u
  apply-Moves (recover limit now locked) db u h =
      recover_stale_jobs-Moves truncate limit now locked db u

  submit-UniqueKeys :
      (d : JobCreate) (new_id now : ℕ) {db db' : Table}
      → Stored d new_id now db db'
      → has_key job_id new_id db ≡ false
      → UniqueKeys job_id db
      → UniqueKeys job_id db'
  unfolding new_job
  submit-UniqueKeys d new_id now (unchanged e) fresh u = rw e u
  submit-UniqueKeys d new_id now (added_unkeyed x e) fresh u = rw e (fresh, u)
  submit-UniqueKeys d new_id now (added_keyed key x y e) fresh u = rw e (fresh, u)

  apply-UniqueKeys :
      (op : Op) (db : Table)
      → UniqueKeys job_id db
      → Admissible truncate op db
      → UniqueKeys job_id (apply truncate op db)
  unfolding apply
  apply-UniqueKeys (submit d new_id now) db u h =
      submit-UniqueKeys d new_id now (create_job-Stored d new_id now db) h.1 u
  apply-UniqueKeys (claim worker queues limit lease now locked) db u h =
      claim_jobs-UniqueKeys worker queues limit lease now locked db u
  apply-UniqueKeys (renew i worker lease now) db u h =
      renew_lease-UniqueKeys i worker lease now db u
  apply-UniqueKeys (complete i worker payload now) db u h =
      mark_succeeded-UniqueKeys i worker payload now db u
  apply-UniqueKeys (fail i worker message retryable base max_delay now) db u h =
      mark_failed-UniqueKeys truncate i worker message retryable base max_delay now db u
  apply-UniqueKeys (recover limit now locked) db u h =
      recover_stale_jobs-UniqueKeys limit now locked db u

  submit-row :
      (d : JobCreate) (new_id now : ℕ) {db db' : Table} (k : ℕ) (j : Job)
      → Stored d new_id now db db'
      → job_at k db' ≡ some j
      → (job_at k db ≡ some j) ⊎ (j ≡ new_job d new_id now)
  unfolding row_at
  submit-row d new_id now k j (unchanged e) h = inl (rw e at h)
  submit-row d new_id now {db} {db'} k j (added_unkeyed x e) h = ground arith
  submit-row d new_id now {db} {db'} k j (added_keyed key x y e) h = ground arith

  AllConsistent : Table → Type 0
  AllConsistent db = (k : ℕ) (j : Job) → job_at k db ≡ some j → IsConsistent j

  -- Where the same ids stay and every row makes a move, consistency stays.
  moved-AllConsistent :
      (actor : Option String) (now : ℕ) (db db' : Table)
      → ((k : ℕ) → has_key job_id k db' ≡ has_key job_id k db)
      → Moves truncate actor now db db'
      → AllConsistent db
      → AllConsistent db'
  unfolding AllConsistent
  moved-AllConsistent actor now db db' same moves rows k j h =
      let (a, there) = has_key-some job_id k db (sym (same k) ∙ has_key-row_at job_id k db' j h) in
      let (b, row, move) = moves k a there in
      let j_is_b : j ≡ b = cc (h, row) in rw j_is_b (Transition-IsConsistent move (rows k a there))

  submit-AllConsistent :
      (d : JobCreate) (new_id now : ℕ) {db db' : Table}
      → Stored d new_id now db db'
      → in_limits d ≡ true
      → AllConsistent db
      → AllConsistent db'
  unfolding AllConsistent
  submit-AllConsistent d new_id now stored limits rows k j h =
      elim (submit-row d new_id now k j stored h) [
        | inl old ↦ rows k j old
        | inr new ↦ rw new (new_job-IsConsistent d new_id now limits)
      ]

  apply-AllConsistent :
      (op : Op) (db : Table)
      → UniqueKeys job_id db
      → Admissible truncate op db
      → AllConsistent db
      → AllConsistent (apply truncate op db)
  unfolding apply
  apply-AllConsistent (submit d new_id now) db u h =
      submit-AllConsistent d new_id now (create_job-Stored d new_id now db) h.0
  apply-AllConsistent (claim worker queues limit lease now locked) db u h =
      moved-AllConsistent (some worker) now db _
        (λ k. has_key-claim_jobs k worker queues limit lease now locked db)
        (claim_jobs-Moves truncate worker queues limit lease now locked db u)
  apply-AllConsistent (renew i worker lease now) db u h =
      moved-AllConsistent (some worker) now db _ (λ k. has_key-renew_lease k i worker lease now db)
        (renew_lease-Moves truncate i worker lease now db)
  apply-AllConsistent (complete i worker payload now) db u h =
      moved-AllConsistent (some worker) now db _
        (λ k. has_key-mark_succeeded k i worker payload now db)
        (mark_succeeded-Moves truncate i worker payload now db)
  apply-AllConsistent (fail i worker message retryable base max_delay now) db u h =
      moved-AllConsistent (some worker) now db _
        (λ k. has_key-mark_failed k truncate i worker message retryable base max_delay now db)
        (mark_failed-Moves truncate i worker message retryable base max_delay now db u)
  apply-AllConsistent (recover limit now locked) db u h =
      moved-AllConsistent none now db _ (λ k. has_key-recover_stale_jobs k limit now locked db)
        (recover_stale_jobs-Moves truncate limit now locked db u)

  pub apply-IsSound :
      (op : Op) (db : Table)
      → Admissible truncate op db
      → IsSound db
      → IsSound (apply truncate op db)
  unfolding AllConsistent
  apply-IsSound op db h s = record {
    keys = apply-UniqueKeys op db s.keys h;
    rows = apply-AllConsistent op db s.keys h s.rows;
  }
