-- ===== src/Jobs/Queue/Invariant.antt =====
-- What the columns of a job say together, in each state of its life.
use software_engineering_car.Common.{
  ℕ, ◌+◌, ◌≤◌, ◌<◌, String, ◌≡◌, Bool, true, false, Option, none, some, arith,
}
use software_engineering_car.Jobs.Model.{JobStatus, Job, is_waiting, is_running, should_retry_job}
use software_engineering_car.Jobs.Queue.{claim, renew, succeed, fail, recover, is_owned, is_stale}
use software_engineering_car.Jobs.Queue.Transition.{
  Transition, stays, claimed, renewed, completed, failed, recovered,
}

abbrev pub is_set {ℓ} : {A : Type ℓ} → Option A → Bool
is_set none = false
is_set (some a) = true

abbrev pub is_finished : JobStatus → Bool
is_finished JobStatus.succeeded = true
is_finished JobStatus.dead_lettered = true
is_finished _ = false

abbrev pub is_succeeded : JobStatus → Bool
is_succeeded JobStatus.succeeded = true
is_succeeded _ = false

abbrev pub is_cancelled : JobStatus → Bool
is_cancelled JobStatus.cancelled = true
is_cancelled _ = false

-- A lease, a heartbeat and a worker stand beside RUNNING; a completion time beside the two final
-- states; a result beside SUCCEEDED; and the attempts stay within their limit.
pub record IsConsistent (j : Job) : Type 0 where
  pub leased : is_set j.lease_expires_at ≡ is_running j.status
  pub beating : is_set j.heartbeat_at ≡ is_running j.status
  pub worked : is_running j.status ≡ true → is_set j.worker_id ≡ true
  pub idle : is_waiting j.status ≡ true → j.worker_id ≡ none
  pub dated : is_set j.completed_at ≡ is_finished j.status
  pub resulted : is_set j.result ≡ is_succeeded j.status
  pub attempted : is_waiting j.status ≡ false → 1 ≤ j.attempt_count
  pub attempts_left : is_waiting j.status ≡ true → j.attempt_count < j.max_attempts
  pub attempts_capped : j.attempt_count ≤ j.max_attempts
  pub not_cancelled : is_cancelled j.status ≡ false

module _ {truncate : String → String} {actor : Option String} {now : ℕ} where
  pub Transition-IsConsistent :
      {a b : Job} → Transition truncate actor now a b → IsConsistent a → IsConsistent b
  unfolding is_owned is_stale claim renew succeed fail recover should_retry_job
  Transition-IsConsistent (stays e) h = ground arith
  Transition-IsConsistent (claimed worker lease by w _ e) h = ground arith
  Transition-IsConsistent (renewed worker lease by o e) h = ground arith
  Transition-IsConsistent (completed worker payload by o e) h = ground arith
  Transition-IsConsistent (failed worker message retryable base max_delay by o e) h = ground arith
  Transition-IsConsistent (recovered o e) h = ground arith

  -- A move leaves a job's identity and its attempt limit alone, and never takes an attempt back.
  pub Transition-attempts :
      {a b : Job}
      → Transition truncate actor now a b
      → (b.id ≡ a.id)
        × (b.max_attempts ≡ a.max_attempts)
        × (a.attempt_count ≤ b.attempt_count)
        × (b.attempt_count ≤ a.attempt_count + 1)
  unfolding claim renew succeed fail recover
  Transition-attempts (stays e) = ground arith
  Transition-attempts (claimed worker lease by w _ e) = ground arith
  Transition-attempts (renewed worker lease by o e) = ground arith
  Transition-attempts (completed worker payload by o e) = ground arith
  Transition-attempts (failed worker message retryable base max_delay by o e) = ground arith
  Transition-attempts (recovered o e) = ground arith
