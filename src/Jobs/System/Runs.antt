-- ===== src/Jobs/System/Runs.antt =====
-- What holds after any sequence of transactions.
use software_engineering_car.Common.{
  ℕ, ◌≤◌, ◌<◌, String, ◌≡◌, ◌≢◌, refl, ◌∙◌, true, some, List, [], ◌∷◌, arith,
}
use software_engineering_car.Jobs.Model.{Job, is_terminal, is_running}
use software_engineering_car.Jobs.Queue.Rows.{Table, job_at}
use software_engineering_car.Jobs.Queue.Invariant.{Transition-attempts}
use software_engineering_car.Jobs.Queue.Transition.{Transition-terminal, Transition-leased}
use software_engineering_car.Jobs.System.{Op, op_actor, op_time, apply, run, AllAdmissible}
use software_engineering_car.Jobs.System.Step.{IsSound, apply-IsSound, apply-Moves}

module _ (truncate : String → String) where
  -- From a sound table, any sequence of submissions, claims, renewals, reports and recoveries
  -- ends in a sound table if each submission is within the schema's numeric limits and gets an
  -- unused id: ids stay unique and the columns of every row fit together; in particular no job
  -- makes more attempts than it may.
  pub run-IsSound :
      (ops : List Op) (db : Table)
      → AllAdmissible truncate ops db
      → IsSound db
      → IsSound (run truncate ops db)
  unfolding run
  run-IsSound [] db h s = s
  run-IsSound (op ∷ ops) db h s =
      run-IsSound ops (apply truncate op db) h.1 (apply-IsSound truncate op db h.0 s)

  -- On a sound table, a job that has succeeded, was dead-lettered or cancelled keeps its row
  -- unchanged through any admissible sequence of transactions.
  pub run_terminal :
      (ops : List Op) (db : Table) (k : ℕ) (a : Job)
      → AllAdmissible truncate ops db
      → IsSound db
      → job_at k db ≡ some a
      → is_terminal a.status ≡ true
      → job_at k (run truncate ops db) ≡ some a
  unfolding run
  run_terminal [] db k a h s there final = there
  run_terminal (op ∷ ops) db k a h s there final =
      let (b, row, move) = apply-Moves truncate op db s.keys h.0 k a there in
      run_terminal ops (apply truncate op db) k a h.1 (apply-IsSound truncate op db h.0 s)
        (rw (← Transition-terminal move final) row) final

  -- Every transaction is another actor's, and comes before the time `t`.
  abbrev pub AllForeign : String → ℕ → List Op → Type 0
  AllForeign w t [] = Unit
  AllForeign w t (op ∷ ops) = (op_actor op ≢ some w) × (op_time op < t) × AllForeign w t ops

  -- On a sound table, let a job be RUNNING under a worker's lease until `t`. Any admissible
  -- sequence of transactions, each of them at a time before `t` and not by that worker, leaves
  -- the job's row exactly as it is.
  pub run_leased :
      (ops : List Op) (db : Table) (k : ℕ) (a : Job) (w : String) (t : ℕ)
      → AllAdmissible truncate ops db
      → IsSound db
      → job_at k db ≡ some a
      → is_running a.status ≡ true
      → a.worker_id ≡ some w
      → a.lease_expires_at ≡ some t
      → AllForeign w t ops
      → job_at k (run truncate ops db) ≡ some a
  unfolding run
  run_leased [] db k a w t h s there r o l f = there
  run_leased (op ∷ ops) db k a w t h s there r o l f =
      let (b, row, move) = apply-Moves truncate op db s.keys h.0 k a there in
      run_leased ops (apply truncate op db) k a w t h.1 (apply-IsSound truncate op db h.0 s)
        (rw (← Transition-leased move r o l f.1 f.0) row) r o l f.2

  -- On a sound table, any admissible sequence of transactions keeps every job and its attempt
  -- limit; its attempts never go down, and stay within that limit.
  pub run_attempts :
      (ops : List Op) (db : Table) (k : ℕ) (a : Job)
      → AllAdmissible truncate ops db
      → IsSound db
      → job_at k db ≡ some a
      → (b : Job) × (job_at k (run truncate ops db) ≡ some b)
        × (b.max_attempts ≡ a.max_attempts)
        × (a.attempt_count ≤ b.attempt_count)
        × (b.attempt_count ≤ a.max_attempts)
  unfolding run
  run_attempts [] db k a h s there =
      (a, there, refl, omega arith, (s.rows k a there).attempts_capped)
  run_attempts (op ∷ ops) db k a h s there =
      let (b, row, move) = apply-Moves truncate op db s.keys h.0 k a there in
      let (c, last, limit, grows, capped) =
        run_attempts ops (apply truncate op db) k b h.1 (apply-IsSound truncate op db h.0 s) row in
      let (_, same, more, _) = Transition-attempts move in
      (c, last, limit ∙ same, omega arith, omega arith)
