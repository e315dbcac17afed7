-- ===== src/Cloud/Users/Emails.antt =====
-- No two accounts have the same email.
use mathlib.Core.Bool.{false≢true}
use software_engineering_car.Common.{
  some, true, sym, ℕ, String, ◌≡◌, refl, ◌∙◌, Bool, false, ◌||◌, none, List, [], ◌∷◌, ◌++◌, str_eq,
  arith, Bool-cases, Option-cases, inl, inr, eq_iff,
}
use software_engineering_car.Common.Table.{select_where, scalar}
use software_engineering_car.Cloud.Model.{User, UserRole, Db, Commit, committed, failed}
use software_engineering_car.Cloud.Users.{
  Security, UserCreate, has_email, violates_unique, err, get_user_by_email, new_user, insert_user,
  register_user, change_user_role, change_user_status, email_already_registered,
}

abbrev pub UniqueEmails : List User → Type 0
UniqueEmails [] = Unit
UniqueEmails (u ∷ users) = (has_email u.email users ≡ false) × UniqueEmails users

has_email-append :
    (e : String) (users more : List User)
    → has_email e (users ++ more) ≡ (has_email e users || has_email e more)
unfolding has_email
has_email-append e [] more = refl
has_email-append e (u ∷ users) more = ground (arith, has_email-append e users more)

-- One more account, with an email that no other has.
append-UniqueEmails :
    (users : List User) (u : User)
    → UniqueEmails users
    → has_email u.email users ≡ false
    → UniqueEmails (users ++ (u ∷ []))
unfolding has_email
append-UniqueEmails [] u v h = (refl, tt)
append-UniqueEmails (x ∷ users) u v h = (
  ground (
    arith,
    has_email-append x.email users (u ∷ []),
    v.0,
    h,
    eq_iff x.email u.email,
    eq_iff u.email x.email,
  ),
  append-UniqueEmails users u v.1 (ground (arith, h)),
)

not_found :
    (e : String) (users : List User)
    → scalar (select_where (λ u. str_eq u.email e) users) ≡ none
    → has_email e users ≡ false
unfolding has_email select_where
not_found e [] h = refl
not_found e (u ∷ users) h = ground (arith, h, not_found e users)

unfound :
    (sec : Security) (email : String) (users : List User)
    → get_user_by_email sec email users ≡ none
    → has_email (sec.normalize email) users ≡ false
unfolding get_user_by_email
unfound sec email users e = not_found (sec.normalize email) users e

insert_user-UniqueEmails :
    (sec : Security) (c : Commit) (u : User) (email : String) (db : Db)
    → UniqueEmails db.users
    → UniqueEmails (insert_user sec c u email db).1.users
insert_user-UniqueEmails sec committed u email db v =
    elim (Bool-cases (violates_unique u db.users)) [
      | inl e ↦ rw e v
      | inr e ↦
          rw e (append-UniqueEmails db.users u v (unfold violates_unique in ground (arith, e)))
    ]
insert_user-UniqueEmails sec failed u email db v = v

pub register_user-UniqueEmails :
    (sec : Security) (uuid : ℕ) (c : Commit) (d : UserCreate) (seen : List User) (db : Db)
    → UniqueEmails db.users
    → UniqueEmails (register_user sec uuid c d seen db).1.users
unfolding register_user
register_user-UniqueEmails sec uuid c d seen db v =
    let n = sec.normalize d.email in
    elim (Option-cases (get_user_by_email sec n seen)) [
      | inl e ↦
          let x : register_user sec uuid c d seen db
              ≡ insert_user sec c (new_user sec uuid n d) n db =
            ground (arith, e) in
          rw x (insert_user-UniqueEmails sec c (new_user sec uuid n d) n db v)
      | inr (u, e) ↦
          let x : register_user sec uuid c d seen db ≡ (err (email_already_registered n), db) =
            ground (arith, e) in
          rw x v
    ]

found_email :
    (e : String) (users : List User) (u : User)
    → scalar (select_where (λ u. str_eq u.email e) users) ≡ some u
    → has_email e users ≡ true
unfolding has_email select_where
found_email e [] u h = absurd (ground (arith, h))
found_email e (x ∷ users) u h = ground (arith, h, found_email e users u)

-- A registration that commits answers and writes the same, whether its look-up has read the table
-- that the commit finds or an earlier one: the answer to an email that another request has
-- registered in between is the same error. No account of the earlier table has gone by then.
pub register_user_stale :
    (sec : Security) (uuid : ℕ) (d : UserCreate) (seen : List User) (db : Db)
    → ((e : String) → has_email e seen ≡ true → has_email e db.users ≡ true)
    → register_user sec uuid committed d seen db ≡ register_user sec uuid committed d db.users db
unfolding register_user get_user_by_email violates_unique
register_user_stale sec uuid d seen db kept =
    let n = sec.normalize d.email in
    elim (Option-cases (get_user_by_email sec n db.users)) [
      | inl e ↦ elim (Option-cases (get_user_by_email sec n seen)) [
        | inl f ↦ ground (arith, e, f)
        | inr (u, f) ↦ absurd (
            false≢true (
              sym (unfound sec n db.users e)
              ∙ kept (sec.normalize n) (found_email (sec.normalize n) seen u f)))
      ]
      | inr (v, e) ↦
          let there = found_email (sec.normalize n) db.users v e in
          elim (Option-cases (get_user_by_email sec n seen)) [
            | inl f ↦ ground (arith, e, f, there)
            | inr (u, f) ↦ ground (arith, e, f)
          ]
    ]

pub data Op : Type 0 where
  register : (uuid : ℕ) (c : Commit) (d : UserCreate) (seen : List User) → Op
  change_role : (user_id event : ℕ) (c : Commit) (role : UserRole) (actor : User) → Op
  change_status : (user_id event : ℕ) (c : Commit) (is_active : Bool) (actor : User) → Op

unfoldable pub apply : Security → Op → Db → Db
apply sec (Op.register uuid c d seen) db = (register_user sec uuid c d seen db).1
apply sec (Op.change_role k event c role actor) db = (change_user_role k event c role actor db).1
apply sec (Op.change_status k event c is_active actor) db =
    (change_user_status k event c is_active actor db).1

unfoldable pub run : Security → List Op → Db → Db
run sec [] db = db
run sec (op ∷ ops) db = run sec ops (apply sec op db)
