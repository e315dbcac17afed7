-- ===== src/Jobs/Tests.antt =====
-- Runs of the job system at concrete inputs, and the theorems at inputs that meet their hypotheses.
use mathlib.Core.Path.{subst}
use software_engineering_car.Common.{
  ℕ, ◌≤◌, ◌+◌, ◌==◌, ◌⊎◌, String, ◌≡◌, refl, true, false, none, some, List, [], ◌∷◌, arith, eq_iff,
}
use software_engineering_car.Common.Int.{pos}
use software_engineering_car.Common.Sorting.{order_by, insert_row}
use software_engineering_car.Common.Table.{
  UniqueKeys, row_at, has_key, select_where, update_where, write_each,
}
use software_engineering_car.Jobs.Model.{JobStatus, Job, job_id, is_running}
use software_engineering_car.Jobs.Queue.{
  is_ready, claim_order, claim, claimable, contains_str, contains_id, claim_jobs, is_owned,
  update_one, succeed, mark_succeeded, mark_failed,
}
use software_engineering_car.Jobs.Queue.Rows.{Table, job_at}
use software_engineering_car.Jobs.Queue.Ownership.{failure_outcome, mark_failed_exact}
use software_engineering_car.Jobs.Queue.Claims.{reply, after_claim, claim_jobs_claimed}
use software_engineering_car.Jobs.Queue.Exclusive.{claim_jobs_disjoint}
use software_engineering_car.Jobs.Submission.{JobCreate, in_limits, new_job, create_job, ok}
use software_engineering_car.Jobs.Submission.Idempotency.{
  create_job_replay, HasOneOwner, create_job-HasOneOwner,
}
use software_engineering_car.Jobs.System.{Op, submit, apply, run, AllAdmissible}
use software_engineering_car.Jobs.System.Step.{IsSound}
use software_engineering_car.Jobs.System.Runs.{
  AllForeign, run-IsSound, run_terminal, run_leased, run_attempts,
}
use software_engineering_car.Jobs.Worker.{
  Settings, raised, made, broken, Call, maintain_lease, process_job, transitioned,
}
use software_engineering_car.Jobs.Worker.Heartbeat.{InTime, IsHeld, maintain_lease-IsHeld}
use software_engineering_car.Jobs.Worker.Settlement.{due_status, finish, process_job_settles}

abbrev keep : String → String
keep s = s

abbrev report : JobCreate
report = record {
  queue = "default";
  task_name = "generate-report";
  payload = "{}";
  priority = pos 10;
  max_attempts = 3;
  idempotency_key = some "sales";
}

abbrev mail : JobCreate
mail = record {
  queue = "default";
  task_name = "send-email";
  payload = "{}";
  priority = pos 0;
  max_attempts = 3;
  idempotency_key = none;
}

abbrev queues : List String
queues = "default" ∷ []

-- Two jobs wait.
abbrev waiting : Table
waiting = new_job mail 2 100 ∷ new_job report 1 100 ∷ []

waiting-keys : UniqueKeys job_id waiting
unfolding has_key new_job
waiting-keys = (refl, (refl, tt))

empty-IsSound : IsSound []
unfolding row_at
empty-IsSound = record { keys = tt; rows = λ k j h. ground arith }

abbrev first_claim : List Op
first_claim = submit report 1 100 ∷ submit mail 2 100 ∷ Op.claim "w1" queues 1 30 100 [] ∷ []

first_claim-admissible : AllAdmissible keep first_claim []
unfolding apply create_job in_limits has_key new_job select_where
first_claim-admissible = ((refl, refl), ((refl, refl), (tt, tt)))

run-IsSound_example : IsSound (run keep first_claim [])
run-IsSound_example = run-IsSound keep first_claim [] first_claim-admissible empty-IsSound

-- The report is claimed first, for its higher priority, and runs under a lease until 130.
abbrev held : Job
held = claim "w1" 100 30 (new_job report 1 100)

abbrev claimed_table : Table
claimed_table = new_job mail 2 100 ∷ held ∷ []

claimed_by_run : run keep first_claim [] ≡ claimed_table
unfolding run apply create_job claim_jobs claimable claim_order is_ready select_where order_by
    insert_row write_each update_where new_job
claimed_by_run = refl

claimed-IsSound : IsSound claimed_table
claimed-IsSound =
    subst IsSound claimed_by_run
      (run-IsSound keep first_claim [] first_claim-admissible empty-IsSound)

held_there : job_at 1 claimed_table ≡ some held
unfolding row_at new_job claim
held_there = refl

-- Another worker and the recovery work on while the lease runs.
abbrev foreign_ops : List Op
foreign_ops =
    Op.claim "w2" queues 5 30 110 [] ∷ Op.complete 1 "w2" "{}" 115 ∷ Op.recover 10 120 [] ∷ []

foreign_ops-AllForeign : AllForeign keep "w1" 130 foreign_ops
foreign_ops-AllForeign = (
  (λ p. ground (arith, eq_iff "w2" "w1")),
  omega arith,
  ((λ p. ground (arith, eq_iff "w2" "w1")), omega arith, ((λ p. ground arith), omega arith, tt)),
)

held_running : is_running held.status ≡ true
unfolding claim
held_running = refl

held_worked : held.worker_id ≡ some "w1"
unfolding claim
held_worked = refl

held_leased : held.lease_expires_at ≡ some 130
unfolding claim
held_leased = refl

run_leased_example : job_at 1 (run keep foreign_ops claimed_table) ≡ some held
run_leased_example =
    run_leased keep foreign_ops claimed_table 1 held "w1" 130 (tt, (tt, (tt, tt))) claimed-IsSound
      held_there held_running held_worked held_leased foreign_ops-AllForeign

abbrev completion : List Op
completion = Op.complete 1 "w1" "{}" 120 ∷ []

completed_there : job_at 1 (run keep completion claimed_table) ≡ some (succeed "{}" 120 held)
unfolding run apply mark_succeeded update_one is_owned row_at new_job claim update_where succeed
completed_there = refl

-- Later calls on a finished job: a second report, a heartbeat, a recovery.
abbrev late_ops : List Op
late_ops = Op.fail 1 "w1" "late" true 5 60 121 ∷ Op.renew 1 "w1" 30 122 ∷ Op.recover 10 500 [] ∷ []

run_terminal_example :
    job_at 1 (run keep late_ops (run keep completion claimed_table)) ≡ some (succeed "{}" 120 held)
unfolding succeed
run_terminal_example =
    run_terminal keep late_ops (run keep completion claimed_table) 1 (succeed "{}" 120 held)
      (tt, (tt, (tt, tt))) (run-IsSound keep completion claimed_table (tt, tt) claimed-IsSound)
      completed_there refl

run_attempts_example :
    (b : Job) × (job_at 1 (run keep late_ops claimed_table) ≡ some b)
    × (b.max_attempts ≡ held.max_attempts)
    × (held.attempt_count ≤ b.attempt_count)
    × (b.attempt_count ≤ held.max_attempts)
run_attempts_example =
    run_attempts keep late_ops claimed_table 1 held (tt, (tt, (tt, tt))) claimed-IsSound held_there

-- A claim of one job returns the report.
claims_report : has_key job_id 1 (reply "w1" queues 1 30 100 [] waiting) ≡ true
unfolding has_key claim_jobs claimable claim_order is_ready select_where order_by insert_row new_job
    claim
claims_report = refl

claim_jobs_claimed_example :
    (a : Job) × (job_at 1 waiting ≡ some a)
    × ((a.status ≡ JobStatus.queued) ⊎ (a.status ≡ JobStatus.retry_scheduled))
    × (contains_str a.queue queues ≡ true)
    × (a.available_at ≤ 100)
    × (contains_id a.id [] ≡ false)
    × ((b : Job) × (b ≡ record a {
      status = JobStatus.running;
      worker_id = some "w1";
      attempt_count = a.attempt_count + 1;
      started_at = some 100;
      lease_expires_at = some 130;
      heartbeat_at = some 100;
      completed_at = none;
      result = none;
      updated_at = 100;
    })
        × (job_at 1 (reply "w1" queues 1 30 100 [] waiting) ≡ some b)
        × (job_at 1 (after_claim "w1" queues 1 30 100 [] waiting) ≡ some b))
claim_jobs_claimed_example =
    claim_jobs_claimed "w1" queues 1 30 100 [] 1 waiting waiting-keys claims_report

claim_jobs_disjoint_example :
    has_key job_id 1 (reply "w2" queues 5 30 101 [] (after_claim "w1" queues 1 30 100 [] waiting))
    ≡ false
claim_jobs_disjoint_example =
    claim_jobs_disjoint "w1" "w2" queues queues 1 5 30 30 100 101 [] [] 1 waiting waiting-keys
      claims_report

mark_failed_exact_example :
    let (status, after) = mark_failed keep 1 "w1" "boom" true 5 60 120 claimed_table in
    (status ≡ (failure_outcome "w1" (keep "boom") true 5 60 120 (job_at 1 claimed_table)).0)
    × (job_at 1 after
        ≡ (failure_outcome "w1" (keep "boom") true 5 60 120 (job_at 1 claimed_table)).1)
    × ((k : ℕ) → (k == 1) ≡ false → job_at k after ≡ job_at k claimed_table)
mark_failed_exact_example =
    mark_failed_exact keep 1 "w1" "boom" true 5 60 120 claimed_table claimed-IsSound.keys

abbrev settings : Settings
settings = record {
  worker_id = "w1";
  queue_names = queues;
  retry_base_delay = 5;
  retry_max_delay = 60;
  lease_duration = 30;
}

held-IsHeld : IsHeld "w1" 130 1 claimed_table held
held-IsHeld = record {
  there = held_there;
  running = held_running;
  worked = held_worked;
  leased = held_leased;
}

-- A renewal at 110, one that fails, and one at 135.
abbrev beats : List Call
beats = made 110 ∷ broken "timeout" ∷ made 135 ∷ []

beats-InTime : InTime 30 130 beats
beats-InTime = (omega arith, (omega arith, tt))

maintain_lease-IsHeld_example :
    (j' : Job) × IsHeld "w1" 165 1 (maintain_lease settings 1 beats claimed_table) j'
    × (j'.payload ≡ held.payload)
    × (j'.attempt_count ≡ held.attempt_count)
    × (j'.max_attempts ≡ held.max_attempts)
maintain_lease-IsHeld_example =
    maintain_lease-IsHeld settings 1 130 beats claimed_table held claimed-IsSound.keys held-IsHeld
      beats-InTime

process_job_settles_example :
    (j' : Job) × ((process_job keep settings 1 beats
        (raised "boom" false)
        (made 160)
        (made 160)
        claimed_table).0
      ≡ transitioned (due_status (raised "boom" false) held.attempt_count held.max_attempts))
    × (job_at 1
          (process_job keep settings 1 beats
            (raised "boom" false)
            (made 160)
            (made 160)
            claimed_table).1
        ≡ some (finish keep settings (raised "boom" false) 160 j'))
    × (j'.payload ≡ held.payload)
process_job_settles_example =
    process_job_settles keep settings (raised "boom" false) 1 130 160 beats claimed_table held
      claimed-IsSound.keys held-IsHeld beats-InTime (omega arith)

created_first :
    create_job report 1 100 [] ≡ (ok (new_job report 1 100) true, new_job report 1 100 ∷ [])
unfolding create_job select_where
created_first = refl

create_job_replay_example :
    create_job report 3 200 (new_job report 1 100 ∷ [])
    ≡ (ok (new_job report 1 100) false, new_job report 1 100 ∷ [])
create_job_replay_example =
    create_job_replay report "sales" 1 100 3 200 [] (new_job report 1 100 ∷ [])
      (new_job report 1 100) true refl created_first

empty-HasOneOwner : HasOneOwner []
unfolding select_where
empty-HasOneOwner key = omega arith

create_job-HasOneOwner_example : HasOneOwner (create_job report 1 100 []).1
create_job-HasOneOwner_example = create_job-HasOneOwner report 1 100 [] empty-HasOneOwner
