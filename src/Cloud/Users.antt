-- ===== src/Cloud/Users.antt =====
-- Accounts, log-in and authorization (cloud-deployed-full-stack-system/backend/app/services/auth.py,
-- repositories/users.py, api/dependencies/auth.py). Hashing, tokens and the text methods are not
-- this repository's code: `Security` is what is used of them.
pub mod Emails
pub mod Grants
use software_engineering_car.Common.{
  ℕ, String, Bool, true, false, not, ◌||◌, Option, none, some, List, [], ◌∷◌, ◌++◌, map, ◌==◌,
  str_eq, if◌then◌else◌,
}
use software_engineering_car.Common.Table.{has_key, row_at, select_where, update_where, scalar}
use software_engineering_car.Cloud.Model.{
  User, UserRole, role_value, AuditAction, AuditResourceType, Value, null, text, flag, Change, Db,
  Commit, committed, failed,
}
use software_engineering_car.Cloud.Audit.{
  same_value, build_change_set, audit_event, record_audit_event,
}

-- What the code reads of a token's payload.
pub record Claims : Type 0 where
  pub type : Value
  pub sub : Value

pub record Security : Type 0 where
  -- `strip().lower()`, and `strip()`.
  pub normalize : String → String
  pub strip : String → String
  pub hash_password : String → String
  pub verify_password : String → String → Bool
  pub dummy_password_hash : String
  -- The claims of a valid token; none is InvalidTokenError.
  pub jwt_decode : String → Option Claims
  -- `UUID(text)`; none is ValueError.
  pub uuid : String → Option ℕ

pub record UserCreate : Type 0 where
  pub email : String
  pub full_name : String
  pub password : String

pub data AuthError : Type 0 where
  email_already_registered : String → AuthError
  invalid_credentials inactive_user user_not_found storage_error : AuthError

pub data Result (A : Type 0) : Type 0 where
  ok : A → Result A
  err : AuthError → Result A

unfoldable pub has_email : String → List User → Bool
has_email e [] = false
has_email e (u ∷ users) = str_eq u.email e || has_email e users

-- The primary key, and the unique constraint of the email.
unfoldable pub violates_unique : User → List User → Bool
violates_unique u users = has_key User.id u.id users || has_email u.email users

module _ (sec : Security) where
  unfoldable pub get_user_by_email : String → List User → Option User
  get_user_by_email email users =
      scalar (select_where (λ u. str_eq u.email (sec.normalize email)) users)

  abbrev pub new_user : ℕ → String → UserCreate → User
  new_user uuid normalized_email d = record {
    id = uuid;
    email = sec.normalize normalized_email;
    full_name = sec.strip d.full_name;
    password_hash = sec.hash_password d.password;
    role = UserRole.viewer;
    is_active = true;
  }

  -- The flush and commit of an insert; IntegrityError where a constraint is violated.
  abbrev pub insert_user : Commit → User → String → Db → Result User × Db
  insert_user committed u email db =
      if violates_unique u db.users
      then (err (email_already_registered email), db)
      else (ok u, record db { users = db.users ++ (u ∷ []) })
  insert_user failed u email db = (err storage_error, db)

  -- `seen` is the table that the look-up reads; others may register before the insert.
  unfoldable pub register_user : ℕ → Commit → UserCreate → List User → Db → Result User × Db
  register_user uuid c d seen db =
      let normalized_email = sec.normalize d.email in
      elim (get_user_by_email normalized_email seen) [
        | some existing ↦ (err (email_already_registered normalized_email), db)
        | none ↦ insert_user c (new_user uuid normalized_email d) normalized_email db
      ]

  abbrev pub stored_hash : Option User → String
  stored_hash none = sec.dummy_password_hash
  stored_hash (some u) = u.password_hash

  abbrev pub checked : Option User → Bool → Result User
  checked none valid = err invalid_credentials
  checked (some u) valid =
      if not valid then err invalid_credentials else if u.is_active then ok u else err inactive_user

  unfoldable pub authenticate_user : String → String → List User → Result User
  authenticate_user email password users =
      let user = get_user_by_email email users in
      checked user (sec.verify_password password (stored_hash user))

-- The commit, or the rollback of both the row and its event.
abbrev pub finish : Commit → User → Db → Db → Result User × Db
finish committed u db' db = (ok u, db')
finish failed u db' db = (err storage_error, db)

abbrev pub assigned :
    ℕ → Commit → User → AuditAction → (User → User) → Db → User → List Change → Result User × Db
assigned event c actor action f db u [] = (ok u, db)
assigned event c actor action f db u (x ∷ changes) =
    finish c (f u)
      (record_audit_event
        (audit_event event actor action AuditResourceType.user u.id u.email (x ∷ changes))
        (record db { users = update_where (λ r. r.id == u.id) f db.users }))
      db

abbrev pub with_role : UserRole → User → User
with_role role u = record u { role = role }

abbrev pub with_status : Bool → User → User
with_status is_active u = record u { is_active = is_active }

unfoldable pub change_user_role : ℕ → ℕ → Commit → UserRole → User → Db → Result User × Db
change_user_role user_id event c role actor db = elim (row_at User.id user_id db.users) [
  | none ↦ (err user_not_found, db)
  | some u ↦ assigned event c actor AuditAction.user_role_changed (with_role role) db u (
      build_change_set (("role", text (role_value u.role)) ∷ [])
        (("role", text (role_value role)) ∷ []))
]

unfoldable pub change_user_status : ℕ → ℕ → Commit → Bool → User → Db → Result User × Db
change_user_status user_id event c is_active actor db = elim (row_at User.id user_id db.users) [
  | none ↦ (err user_not_found, db)
  | some u ↦
      assigned event c actor AuditAction.user_status_changed (with_status is_active) db u (
        build_change_set (("is_active", flag u.is_active) ∷ [])
          (("is_active", flag is_active) ∷ []))
]

-- The dependencies of the protected routes: 401 without valid credentials, 403 where disabled or
-- without permission.
pub data Access : Type 0 where
  granted : User → Access
  unauthorized disabled forbidden : Access
  -- ValueError, when the route is declared.
  no_roles : Access

-- The subject of a token; none is InvalidTokenError.
abbrev pub subject : Value → Option String
subject null = none
subject (text s) = if str_eq s "" then none else some s
subject (flag b) = none

abbrev pub check_payload : Option Claims → Option String
check_payload none = none
check_payload (some payload) =
    if same_value payload.type (text "access") then subject payload.sub else none

unfoldable pub decode_access_token : Security → String → Option String
decode_access_token sec token = check_payload (sec.jwt_decode token)

abbrev pub user_id_in : Security → Option String → Option ℕ
user_id_in sec none = none
user_id_in sec (some s) = sec.uuid s

abbrev pub active_user : Option User → Access
active_user none = unauthorized
active_user (some u) = if u.is_active then granted u else disabled

abbrev pub user_of : Option ℕ → List User → Access
user_of none users = unauthorized
user_of (some user_id) users = active_user (row_at User.id user_id users)

abbrev pub same_role : UserRole → UserRole → Bool
same_role UserRole.viewer UserRole.viewer = true
same_role UserRole.operator UserRole.operator = true
same_role UserRole.admin UserRole.admin = true
same_role _ _ = false

abbrev pub contains_role : UserRole → List UserRole → Bool
contains_role r [] = false
contains_role r (s ∷ roles) = same_role s r || contains_role r roles

abbrev pub check_role : List UserRole → Access → Access
check_role roles (granted u) = if contains_role u.role roles then granted u else forbidden
check_role roles unauthorized = unauthorized
check_role roles disabled = disabled
check_role roles forbidden = forbidden
check_role roles no_roles = no_roles

unfoldable pub get_current_user : Security → String → List User → Access
get_current_user sec token users = user_of (user_id_in sec (decode_access_token sec token)) users

unfoldable pub require_roles : Security → List UserRole → String → List User → Access
require_roles sec [] token users = no_roles
require_roles sec (r ∷ roles) token users =
    check_role (r ∷ roles) (get_current_user sec token users)
