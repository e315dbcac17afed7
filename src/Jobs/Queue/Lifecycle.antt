-- ===== src/Jobs/Queue/Lifecycle.antt =====
-- Each queue operation, on a table with unique ids, moves every row by the state machine.
use software_engineering_car.Common.{
  ℕ, String, ◌≡◌, refl, ◌∙◌, Bool, true, not, ◌&&◌, ◌||◌, Option, none, some, List, [], ◌∷◌, inl,
  inr, arith, ltb, ◌==◌, take, Bool-cases, ==→eq, &&-true,
}
use software_engineering_car.Common.Table.{
  UniqueKeys, has_key, has_row, if_row, select_where, update_where, at_key, write_each,
  row_at-write_each, batch-UniqueKeys, has_row-batch, row_at-update_where, select_where-at_key,
  key-row_at, scalar-row_list, if_row-some,
}
use software_engineering_car.Common.Sorting.{order_by}
use software_engineering_car.Jobs.Model.{Job, job_id}
use software_engineering_car.Jobs.Queue.{
  is_ready, claim_order, claim, contains_id, claimable, claim_jobs, is_owned, update_one, renew,
  renew_lease, succeed, mark_succeeded, fail, mark_failed, report_failure, is_stale, stale_order,
  recover, stale_jobs, recover_stale_jobs, is_empty,
}
use software_engineering_car.Jobs.Queue.Keys.{fail-id, recover-id}
use software_engineering_car.Jobs.Queue.Rows.{Table, job_at}
use software_engineering_car.Jobs.Queue.Transition.{
  Transition, stays, claimed, renewed, completed, failed, recovered,
}

module _ (truncate : String → String) where
  -- Between two tables every row that was there is there still, and has made one move.
  abbrev pub Moves : Option String → ℕ → Table → Table → Type 0
  Moves actor now db db' =
      (k : ℕ) (a : Job)
      → job_at k db ≡ some a
      → (b : Job) × (job_at k db' ≡ some b) × Transition truncate actor now a b

  pub Moves-stay : (actor : Option String) (now : ℕ) (db : Table) → Moves actor now db db
  Moves-stay actor now db k a h = (a, h, stays refl)

  -- A batch of rows that pass `p`, each written by `f`.
  batch-Moves :
      (actor : Option String) (now : ℕ) (before : Job → Job → Bool) (p : Job → Bool) (f : Job → Job)
      (n : ℕ) (db : Table)
      → ((j : Job) → (f j).id ≡ j.id)
      → ((j : Job) → p j ≡ true → Transition truncate actor now j (f j))
      → UniqueKeys job_id db
      → Moves actor now db (write_each job_id f (take n (order_by before (select_where p db))) db)
  batch-Moves actor now before p f n db keeps moves u k a h =
      let batch = take n (order_by before (select_where p db)) in
      let row =
        row_at-write_each job_id f keeps k batch db (batch-UniqueKeys job_id before p n db u) in
      elim (Bool-cases (has_key job_id k batch)) [
        | inl e ↦
            (f a, row ∙ rw (e, h), moves a (passes h (has_row-batch job_id before p n db u k e)))
        | inr e ↦ (a, row ∙ rw (e, h), stays refl)
      ]
    where
      passes : job_at k db ≡ some a → has_row p (job_at k db) ≡ true → p a ≡ true
      passes e t = rw e at t

  -- An update of the row with one id, if it passes `p`.
  update-Moves :
      (actor : Option String) (now : ℕ) (i : ℕ) (p : Job → Bool) (f : Job → Job) (db : Table)
      → ((j : Job) → (f j).id ≡ j.id)
      → ((j : Job) → p j ≡ true → Transition truncate actor now j (f j))
      → Moves actor now db (update_where (at_key job_id i p) f db)
  update-Moves actor now i p f db keeps moves k a h =
      let row = row_at-update_where job_id (at_key job_id i p) f k db keeps in
      elim (Bool-cases (at_key job_id i p a)) [
        | inl e ↦ (f a, row ∙ rw (h, e), moves a (&&-true (a.id == i) (p a) e).1)
        | inr e ↦ (a, row ∙ rw (h, e), stays refl)
      ]

  ready_moves :
      (worker : String) (queues : List String) (now lease : ℕ) (locked : List ℕ) (j : Job)
      → (is_ready queues now j && not (contains_id j.id locked)) ≡ true
      → Transition truncate (some worker) now j (claim worker now lease j)
  unfolding is_ready
  ready_moves worker queues now lease locked j h =
      claimed worker lease refl (ground arith) (ground arith) refl

  pub claim_jobs-Moves :
      (worker : String) (queues : List String) (limit lease now : ℕ) (locked : List ℕ) (db : Table)
      → UniqueKeys job_id db
      → Moves (some worker) now db (claim_jobs worker queues limit lease now locked db).1
  unfolding claim_jobs claimable claim
  claim_jobs-Moves worker queues limit lease now locked db u =
      elim (Bool-cases (is_empty queues || ltb limit 1)) [
        | inl e ↦ rw e (Moves-stay (some worker) now db)
        | inr e ↦ rw e (
            batch-Moves (some worker) now claim_order
              (λ j. is_ready queues now j && not (contains_id j.id locked)) (claim worker now lease)
              limit db (λ j. refl) (ready_moves worker queues now lease locked) u)
      ]

  pub renew_lease-Moves :
      (i : ℕ) (worker : String) (lease now : ℕ) (db : Table)
      → Moves (some worker) now db (renew_lease i worker lease now db).1
  unfolding renew_lease update_one renew
  renew_lease-Moves i worker lease now db =
      update-Moves (some worker) now i (is_owned worker now) (renew now lease) db (λ j. refl)
        (λ j o. renewed worker lease refl o refl)

  pub mark_succeeded-Moves :
      (i : ℕ) (worker payload : String) (now : ℕ) (db : Table)
      → Moves (some worker) now db (mark_succeeded i worker payload now db).1
  unfolding mark_succeeded update_one succeed
  mark_succeeded-Moves i worker payload now db =
      update-Moves (some worker) now i (is_owned worker now) (succeed payload now) db (λ j. refl)
        (λ j o. completed worker payload refl o refl)

  -- What `mark_failed` does to the row that its SELECT returned.
  report_failure-Moves :
      (i : ℕ) (worker message : String) (retryable : Bool) (base max_delay now : ℕ) (db : Table)
      (o : Option Job)
      → if_row (is_owned worker now) (job_at i db) ≡ o
      → Moves
          (some worker)
          now
          db
          (report_failure truncate message retryable base max_delay now o db).1
  unfolding report_failure has_key
  report_failure-Moves i worker message retryable base max_delay now db none h k a e =
      (a, e, stays refl)
  report_failure-Moves i worker message retryable base max_delay now db (some j) h k a e =
      let f = fail truncate message retryable base max_delay now in
      let keeps = fail-id truncate message retryable base max_delay now in
      let row = row_at-write_each job_id f keeps k (j ∷ []) db (refl, tt) in
      let (found, owned) = if_row-some (is_owned worker now) (job_at i db) j h in
      let same_id = key-row_at job_id i db j found in
      elim (Bool-cases (j.id == k)) [
        | inl t ↦ (
          f a,
          row ∙ rw (t, e),
          let i_is_k : i ≡ k = omega (arith, ==→eq j.id k t, same_id) in
              let a_is_j : a ≡ j = cc (e, found, i_is_k) in
              failed worker message retryable base max_delay refl (rw a_is_j owned) refl,
        )
        | inr t ↦ (a, row ∙ rw (t, e), stays refl)
      ]

  pub mark_failed-Moves :
      (i : ℕ) (worker message : String) (retryable : Bool) (base max_delay now : ℕ) (db : Table)
      → UniqueKeys job_id db
      → Moves
          (some worker)
          now
          db
          (mark_failed truncate i worker message retryable base max_delay now db).1
  unfolding mark_failed
  mark_failed-Moves i worker message retryable base max_delay now db u =
      rw (select_where-at_key job_id (is_owned worker now) i db u, scalar-row_list)
        (report_failure-Moves i worker message retryable base max_delay now db
          (if_row (is_owned worker now) (job_at i db)) refl)

  pub recover_stale_jobs-Moves :
      (limit now : ℕ) (locked : List ℕ) (db : Table)
      → UniqueKeys job_id db
      → Moves none now db (recover_stale_jobs limit now locked db).1
  unfolding recover_stale_jobs stale_jobs
  recover_stale_jobs-Moves limit now locked db u = elim (Bool-cases (ltb limit 1)) [
    | inl e ↦ rw e (Moves-stay none now db)
    | inr e ↦ rw e (
        batch-Moves none now stale_order (λ j. is_stale now j && not (contains_id j.id locked))
          (recover now) limit db (recover-id now)
          (λ j s. recovered (&&-true (is_stale now j) (not (contains_id j.id locked)) s).0 refl) u)
  ]
