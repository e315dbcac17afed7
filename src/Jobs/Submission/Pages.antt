-- ===== src/Jobs/Submission/Pages.antt =====
-- Pagination of the job list.
use native.Mathlib.Nat.{zero-add, suc-add}
use software_engineering_car.Common.{
  ◌∙◌, ℕ, zero, suc, ◌+◌, String, ◌≡◌, refl, Option, List, [], ◌∷◌, ◌++◌, take, drop,
}
use software_engineering_car.Jobs.Model.{JobStatus, Job}
use software_engineering_car.Jobs.Submission.{matching_jobs, list_jobs}

module _ {ℓ} {A : Type ℓ} where
  take-nil : (k : ℕ) → ◌≡◌ {A = List A} [] (take k [])
  take-nil zero = refl
  take-nil (suc k) = refl

  take-add : (m n : ℕ) (xs : List A) → take (m + n) xs ≡ take m xs ++ take n (drop m xs)
  take-add zero n xs = rw zero-add refl
  take-add (suc m) n [] = rw suc-add (take-nil n)
  take-add (suc m) n (x ∷ xs) = rw (suc-add, take-add m n xs) refl

drop-drop {ℓ} : {A : Type ℓ} (o m : ℕ) (xs : List A) → drop m (drop o xs) ≡ drop (o + m) xs
drop-drop zero m xs = rw zero-add refl
drop-drop (suc o) zero [] = rw suc-add refl
drop-drop (suc o) (suc m) [] = rw suc-add refl
drop-drop (suc o) m (x ∷ xs) = rw suc-add (drop-drop o m xs)

-- Two consecutive pages neither overlap nor skip: together they are the page of both sizes.
pub list_jobs-append :
    (queue : Option String) (status : Option JobStatus) (m n offset : ℕ) (db : List Job)
    → list_jobs queue status (m + n) offset db
      ≡ list_jobs queue status m offset db ++ list_jobs queue status n (offset + m) db
unfolding list_jobs
list_jobs-append queue status m n offset db =
    let found = matching_jobs queue status db in
    take-add m n (drop offset found) ∙ rw (drop-drop offset m found) refl
