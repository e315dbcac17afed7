-- ===== src/Jobs/Queue/Transition.antt =====
-- The life of one job as a state machine: the moves that a row may make in one queue operation.
use software_engineering_car.Common.{
  ℕ, String, ◌≡◌, ◌≢◌, Bool, true, ◌≤◌, ◌<◌, Option, some, arith, eq_iff,
}
use software_engineering_car.Jobs.Model.{Job, is_waiting, is_running, is_terminal}
use software_engineering_car.Jobs.Queue.{claim, renew, succeed, fail, recover, is_owned, is_stale}

-- The actor of a move is the worker that reports, or `none` for the recovery of stale jobs.
module _ (truncate : String → String) (actor : Option String) (now : ℕ) where
  -- What may become of a row `a`: nothing, or one of the five moves, each under its guard.
  pub data Transition (a b : Job) : Type 0 where
    stays : b ≡ a → Transition a b
    claimed :
        (worker : String) (lease : ℕ)
        → actor ≡ some worker
        → is_waiting a.status ≡ true
        → a.available_at ≤ now
        → b ≡ claim worker now lease a
        → Transition a b
    renewed :
        (worker : String) (lease : ℕ)
        → actor ≡ some worker
        → is_owned worker now a ≡ true
        → b ≡ renew now lease a
        → Transition a b
    completed :
        (worker payload : String)
        → actor ≡ some worker
        → is_owned worker now a ≡ true
        → b ≡ succeed payload now a
        → Transition a b
    failed :
        (worker message : String) (retryable : Bool) (base max_delay : ℕ)
        → actor ≡ some worker
        → is_owned worker now a ≡ true
        → b ≡ fail truncate message retryable base max_delay now a
        → Transition a b
    recovered : is_stale now a ≡ true → b ≡ recover now a → Transition a b

module _ {truncate : String → String} {actor : Option String} {now : ℕ} where
  -- A finished job never moves again: no claim, report or recovery changes it.
  pub Transition-terminal :
      {a b : Job} → Transition truncate actor now a b → is_terminal a.status ≡ true → b ≡ a
  unfolding is_owned is_stale
  Transition-terminal (stays e) h = e
  Transition-terminal (claimed worker lease by w _ e) h = ground arith
  Transition-terminal (renewed worker lease by o e) h = ground arith
  Transition-terminal (completed worker payload by o e) h = ground arith
  Transition-terminal (failed worker message retryable base max_delay by o e) h = ground arith
  Transition-terminal (recovered o e) h = ground arith

  -- While a lease runs, nobody but its worker moves the job.
  pub Transition-leased :
      {a b : Job} {w : String} {t : ℕ}
      → Transition truncate actor now a b
      → is_running a.status ≡ true
      → a.worker_id ≡ some w
      → a.lease_expires_at ≡ some t
      → now < t
      → actor ≢ some w
      → b ≡ a
  unfolding is_owned is_stale
  Transition-leased (stays e) r o l h n = e
  Transition-leased (claimed worker lease by w _ e) r o l h n = ground arith
  Transition-leased {w = w} (renewed worker lease by g e) r o l h n =
      absurd (n (ground (arith, eq_iff w worker)))
  Transition-leased {w = w} (completed worker payload by g e) r o l h n =
      absurd (n (ground (arith, eq_iff w worker)))
  Transition-leased {w = w} (failed worker message retryable base max_delay by g e) r o l h n =
      absurd (n (ground (arith, eq_iff w worker)))
  Transition-leased (recovered g e) r o l h n = ground arith
