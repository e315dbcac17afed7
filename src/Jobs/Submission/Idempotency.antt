-- ===== src/Jobs/Submission/Idempotency.antt =====
-- Idempotency keys: one job for each key, and a repeated submission gets it back.
use software_engineering_car.Common.{
  ℕ, String, ◌≡◌, refl, sym, ap, ◌∙◌, Bool, true, false, Option, none, some, List, [], ◌∷◌, inl,
  inr, arith, eq_iff, Option-cases, ◌≤◌, length, if◌then◌else◌,
}
use mathlib.Core.Path.{subst}
use software_engineering_car.Common.Table.{select_where, scalar}
use software_engineering_car.Jobs.Model.{Job}
use software_engineering_car.Jobs.Submission.{
  JobCreate, Submitted, ok, err, idempotency_conflict, new_job, has_idempotency_key, create_job,
  create_or_get, insert_unless_conflict, existing_or_error, job_matches_submission, settle,
}

-- The row that owns a key.
abbrev pub owner : String → List Job → Option Job
owner key db = scalar (select_where (has_idempotency_key key) db)

-- What a keyed submission answers, by the row that owns its key already.
abbrev pub keyed_outcome : JobCreate → ℕ → ℕ → List Job → Option Job → Submitted × List Job
keyed_outcome d new_id now db none = (ok (new_job d new_id now) true, new_job d new_id now ∷ db)
keyed_outcome d new_id now db (some j) =
    if job_matches_submission j d then (ok j false, db) else (err idempotency_conflict, db)

create_or_get_keyed :
    (d : JobCreate) (key : String) (new_id now : ℕ) (db : List Job) (o : Option Job)
    → owner key db ≡ o
    → settle d db (create_or_get (some key) d new_id now db) ≡ keyed_outcome d new_id now db o
unfolding create_or_get settle
create_or_get_keyed d key new_id now db none h = rw (h, insert_unless_conflict) refl
create_or_get_keyed d key new_id now db (some j) h =
    rw (h, insert_unless_conflict) (rw (h, existing_or_error) refl)

-- A submission with a key creates a job if no row owns the key, returns the owner if it asked for
-- the same work, and is refused without a change otherwise; the error for an owner that cannot be
-- found never arises.
pub create_job_keyed :
    (d : JobCreate) (key : String) (new_id now : ℕ) (db : List Job)
    → d.idempotency_key ≡ some key
    → create_job d new_id now db ≡ keyed_outcome d new_id now db (owner key db)
unfolding create_job
create_job_keyed d key new_id now db h =
    ap (λ o. settle d db (create_or_get o d new_id now db)) h
    ∙ create_or_get_keyed d key new_id now db (owner key db) refl

new_job-matches :
    (d : JobCreate) (new_id now : ℕ) → job_matches_submission (new_job d new_id now) d ≡ true
unfolding job_matches_submission new_job
new_job-matches d new_id now =
    ground
      (arith, eq_iff d.queue d.queue, eq_iff d.task_name d.task_name, eq_iff d.payload d.payload)

new_job-owns :
    (d : JobCreate) (key : String) (new_id now : ℕ) (db : List Job)
    → d.idempotency_key ≡ some key
    → owner key (new_job d new_id now ∷ db) ≡ some (new_job d new_id now)
unfolding select_where new_job
new_job-owns d key new_id now db h = ground (arith, eq_iff key key)

replay_outcome :
    (d : JobCreate) (key : String) (new_id now new_id' now' : ℕ) (db db' : List Job) (job : Job)
    (fresh : Bool) (o : Option Job)
    → d.idempotency_key ≡ some key
    → owner key db ≡ o
    → keyed_outcome d new_id now db o ≡ (ok job fresh, db')
    → keyed_outcome d new_id' now' db' (owner key db') ≡ (ok job false, db')
replay_outcome d key new_id now new_id' now' db db' job fresh none k h e =
    ground (arith, new_job-owns d key new_id now db k, new_job-matches d new_id now)
replay_outcome d key new_id now new_id' now' db db' job fresh (some j) k h e = ground arith

-- A submission that succeeded under a key, sent again at once, returns the same job as a replay and
-- leaves the table as it is.
pub create_job_replay :
    (d : JobCreate) (key : String) (new_id now new_id' now' : ℕ) (db db' : List Job) (job : Job)
    (fresh : Bool)
    → d.idempotency_key ≡ some key
    → create_job d new_id now db ≡ (ok job fresh, db')
    → create_job d new_id' now' db' ≡ (ok job false, db')
create_job_replay d key new_id now new_id' now' db db' job fresh k h =
    create_job_keyed d key new_id' now' db' k
    ∙ replay_outcome d key new_id now new_id' now' db db' job fresh (owner key db) k refl
        (sym (create_job_keyed d key new_id now db k) ∙ h)

-- At most one row has each idempotency key.
abbrev pub HasOneOwner : List Job → Type 0
HasOneOwner db = (key : String) → length (select_where (has_idempotency_key key) db) ≤ 1

none_owns : (rows : List Job) → scalar rows ≡ none → length rows ≡ 0
none_owns [] h = refl
none_owns (j ∷ rows) h = ground arith

add-HasOneOwner :
    (d : JobCreate) (key : String) (new_id now : ℕ) (db : List Job)
    → d.idempotency_key ≡ some key
    → owner key db ≡ none
    → HasOneOwner db
    → HasOneOwner (new_job d new_id now ∷ db)
unfolding select_where new_job
add-HasOneOwner d key new_id now db k h one other =
    ground
      (arith, one other, eq_iff key other, none_owns (select_where (has_idempotency_key key) db) h)

add_unkeyed-HasOneOwner :
    (d : JobCreate) (new_id now : ℕ) (db : List Job)
    → d.idempotency_key ≡ none
    → HasOneOwner db
    → HasOneOwner (new_job d new_id now ∷ db)
unfolding select_where new_job
add_unkeyed-HasOneOwner d new_id now db k one other = ground (arith, one other)

-- What a submission does to the table: nothing, or one new row whose key nobody owned.
pub data Stored (d : JobCreate) (new_id now : ℕ) (db db' : List Job) : Type 0 where
  unchanged : db' ≡ db → Stored d new_id now db db'
  added_unkeyed :
      d.idempotency_key ≡ none → db' ≡ new_job d new_id now ∷ db → Stored d new_id now db db'
  added_keyed :
      (key : String)
      → d.idempotency_key ≡ some key
      → owner key db ≡ none
      → db' ≡ new_job d new_id now ∷ db
      → Stored d new_id now db db'

keyed-Stored :
    (d : JobCreate) (key : String) (new_id now : ℕ) (db : List Job) (o : Option Job)
    → d.idempotency_key ≡ some key
    → owner key db ≡ o
    → Stored d new_id now db (keyed_outcome d new_id now db o).1
keyed-Stored d key new_id now db none k h = added_keyed key k h refl
keyed-Stored d key new_id now db (some j) k h = unchanged (ground arith)

pub create_job-Stored :
    (d : JobCreate) (new_id now : ℕ) (db : List Job)
    → Stored d new_id now db (create_job d new_id now db).1
unfolding create_job
create_job-Stored d new_id now db = elim (Option-cases d.idempotency_key) [
  | inl k ↦ added_unkeyed k (ap (λ o. (settle d db (create_or_get o d new_id now db)).1) k)
  | inr (key, k) ↦
      subst (λ (r : Submitted × List Job). Stored d new_id now db r.1)
        (sym (create_job_keyed d key new_id now db k))
        (keyed-Stored d key new_id now db (owner key db) k refl)
]

-- On a table where each idempotency key has at most one job, a submission leaves it so.
pub create_job-HasOneOwner :
    (d : JobCreate) (new_id now : ℕ) (db : List Job)
    → HasOneOwner db
    → HasOneOwner (create_job d new_id now db).1
create_job-HasOneOwner d new_id now db one = go (create_job-Stored d new_id now db)
  where
    go : {db' : List Job} → Stored d new_id now db db' → HasOneOwner db'
    go (unchanged e) = subst HasOneOwner (sym e) one
    go (added_unkeyed k e) =
        subst HasOneOwner (sym e) (add_unkeyed-HasOneOwner d new_id now db k one)
    go (added_keyed key k h e) =
        subst HasOneOwner (sym e) (add-HasOneOwner d key new_id now db k h one)
