-- ===== src/Jobs/Worker/Heartbeat.antt =====
-- The heartbeat keeps ownership while its rounds come within the lease.
use software_engineering_car.Common.{
  ℕ, ◌+◌, ◌<◌, String, ◌≡◌, refl, true, some, List, [], ◌∷◌, arith, eq_iff, inl, inr, Bool-cases,
}
use software_engineering_car.Common.Table.{UniqueKeys}
use software_engineering_car.Jobs.Model.{Job, job_id, is_running}
use software_engineering_car.Jobs.Queue.{is_owned, renew, renew_lease}
use software_engineering_car.Jobs.Queue.Rows.{Table, job_at}
use software_engineering_car.Jobs.Queue.Keys.{renew_lease-UniqueKeys}
use software_engineering_car.Jobs.Queue.Ownership.{renew_lease_exact}
use software_engineering_car.Jobs.Worker.{Settings, Call, made, broken, maintain_lease}

-- Each round that is made comes before the lease of the one before it ends. Rounds that raise
-- renew nothing.
abbrev pub InTime : ℕ → ℕ → List Call → Type 0
InTime lease expires [] = Unit
InTime lease expires (broken message ∷ calls) = InTime lease expires calls
InTime lease expires (made now ∷ calls) = (now < expires) × InTime lease (now + lease) calls

-- When the lease ends after the rounds.
abbrev pub last_expiry : ℕ → ℕ → List Call → ℕ
last_expiry lease expires [] = expires
last_expiry lease expires (broken message ∷ calls) = last_expiry lease expires calls
last_expiry lease expires (made now ∷ calls) = last_expiry lease (now + lease) calls

-- The row is RUNNING under a worker's lease until a time.
pub record IsHeld (worker : String) (expires : ℕ) (k : ℕ) (db : Table) (j : Job) : Type 0 where
  pub there : job_at k db ≡ some j
  pub running : is_running j.status ≡ true
  pub worked : j.worker_id ≡ some worker
  pub leased : j.lease_expires_at ≡ some expires

pub IsHeld-owned :
    (worker : String) (expires k now : ℕ) (db : Table) (j : Job)
    → IsHeld worker expires k db j
    → now < expires
    → is_owned worker now j ≡ true
unfolding is_owned
IsHeld-owned worker expires k now db j h lt = ground (arith, eq_iff worker worker)

renewed-IsHeld :
    (worker : String) (lease expires k now : ℕ) (db : Table) (j : Job)
    → UniqueKeys job_id db
    → IsHeld worker expires k db j
    → now < expires
    → ((renew_lease k worker lease now db).0 ≡ true)
      × IsHeld worker (now + lease) k (renew_lease k worker lease now db).1 (renew now lease j)
unfolding renew
renewed-IsHeld worker lease expires k now db j u h lt =
    let (reply, row) = renew_lease_exact k worker lease now db u in
    let owned = IsHeld-owned worker expires k now db j h lt in
    (
      ground (arith, reply, h.there, owned),
      record {
        there = ground (arith, row k, h.there, owned);
        running = h.running;
        worked = h.worked;
        leased = refl;
      },
    )

-- On a table with unique ids, a worker that holds a job and whose renewals all come in time still
-- holds it after them, with the same payload, attempt count and limit, until the last renewal's
-- lease ends.
pub maintain_lease-IsHeld :
    (s : Settings) (k expires : ℕ) (calls : List Call) (db : Table) (j : Job)
    → UniqueKeys job_id db
    → IsHeld s.worker_id expires k db j
    → InTime s.lease_duration expires calls
    → (j' : Job) × IsHeld s.worker_id
        (last_expiry s.lease_duration expires calls)
        k
        (maintain_lease s k calls db)
        j'
      × (j'.payload ≡ j.payload)
      × (j'.attempt_count ≡ j.attempt_count)
      × (j'.max_attempts ≡ j.max_attempts)
unfolding maintain_lease renew
maintain_lease-IsHeld s k expires [] db j u h t = (j, h, refl, refl, refl)
maintain_lease-IsHeld s k expires (broken message ∷ calls) db j u h t =
    maintain_lease-IsHeld s k expires calls db j u h t
maintain_lease-IsHeld s k expires (made now ∷ calls) db j u h t =
    let (renewed, held) = renewed-IsHeld s.worker_id s.lease_duration expires k now db j u h t.0 in
    let db' = (renew_lease k s.worker_id s.lease_duration now db).1 in
    let u' = renew_lease-UniqueKeys k s.worker_id s.lease_duration now db u in
    let (j', later, p, q, r) =
      maintain_lease-IsHeld s k (now + s.lease_duration) calls db' (renew now s.lease_duration j) u'
        held t.1 in
    rw renewed (j', later, p, q, r)

pub maintain_lease-UniqueKeys :
    (s : Settings) (k : ℕ) (calls : List Call) (db : Table)
    → UniqueKeys job_id db
    → UniqueKeys job_id (maintain_lease s k calls db)
unfolding maintain_lease
maintain_lease-UniqueKeys s k [] db u = u
maintain_lease-UniqueKeys s k (broken message ∷ calls) db u =
    maintain_lease-UniqueKeys s k calls db u
maintain_lease-UniqueKeys s k (made now ∷ calls) db u =
    let u' = renew_lease-UniqueKeys k s.worker_id s.lease_duration now db u in
    let later =
      maintain_lease-UniqueKeys s k calls (renew_lease k s.worker_id s.lease_duration now db).1
        u' in
    elim (Bool-cases (renew_lease k s.worker_id s.lease_duration now db).0) [
      | inl e ↦ rw e later
      | inr e ↦ rw e u'
    ]
