-- ===== src/Cloud/Users/Grants.antt =====
-- Who is granted access.
use software_engineering_car.Common.{
  ℕ, String, ◌≡◌, ◌∙◌, ap, ◌↔◌, true, some, List, [], ◌∷◌, arith, Option-cases, inl, inr,
}
use software_engineering_car.Common.Table.{row_at}
use software_engineering_car.Cloud.Model.{User, UserRole}
use software_engineering_car.Cloud.Users.{
  Security, granted, ok, get_user_by_email, authenticate_user, contains_role, decode_access_token,
  user_id_in, get_current_user, require_roles,
}

-- A user whom the token names, who is active and has one of the roles.
abbrev pub IsAllowed : Security → List UserRole → String → List User → User → Type 0
IsAllowed sec roles token users u =
    ((k : ℕ) × (user_id_in sec (decode_access_token sec token) ≡ some k)
      × (row_at User.id k users ≡ some u))
    × (u.is_active ≡ true)
    × (contains_role u.role roles ≡ true)

allowed :
    (sec : Security) (roles : List UserRole) (token : String) (users : List User) (u : User)
    → IsAllowed sec roles token users u
    → require_roles sec roles token users ≡ granted u
unfolding require_roles get_current_user
allowed sec [] token users u ((k, t, r), a, c) = absurd (ground (arith, c))
allowed sec (s ∷ roles) token users u ((k, t, r), a, c) = ground (arith, t, r, a, c)

granted_only :
    (sec : Security) (roles : List UserRole) (token : String) (users : List User) (u : User)
    → require_roles sec roles token users ≡ granted u
    → IsAllowed sec roles token users u
unfolding require_roles get_current_user
granted_only sec [] token users u h = absurd (ground (arith, h))
granted_only sec (s ∷ roles) token users u h =
    elim (Option-cases (user_id_in sec (decode_access_token sec token))) [
      | inl t ↦ absurd (ground (arith, t, h))
      | inr (k, t) ↦ elim (Option-cases (row_at User.id k users)) [
        | inl r ↦ absurd (ground (arith, t, r, h))
        | inr (v, r) ↦
            let p : v ≡ u = ground (arith, t, r, h) in
            ((k, t, r ∙ ap some p), ground (arith, t, r, h, p), ground (arith, t, r, h, p))
      ]
    ]

-- A protected route is granted to a user exactly when the token names the id of that user's row,
-- the account is active, and its role, as it is stored now, is one of the allowed.
pub require_roles_exact :
    (sec : Security) (roles : List UserRole) (token : String) (users : List User) (u : User)
    → (require_roles sec roles token users ≡ granted u) ↔ IsAllowed sec roles token users u
require_roles_exact sec roles token users u =
    (granted_only sec roles token users u, allowed sec roles token users u)

authenticated :
    (sec : Security) (email password : String) (users : List User) (u : User)
    → (get_user_by_email sec email users ≡ some u)
      × (sec.verify_password password u.password_hash ≡ true)
      × (u.is_active ≡ true)
    → authenticate_user sec email password users ≡ ok u
unfolding authenticate_user
authenticated sec email password users u (g, v, a) = ground (arith, g, v, a)

authenticated_only :
    (sec : Security) (email password : String) (users : List User) (u : User)
    → authenticate_user sec email password users ≡ ok u
    → (get_user_by_email sec email users ≡ some u)
      × (sec.verify_password password u.password_hash ≡ true)
      × (u.is_active ≡ true)
unfolding authenticate_user
authenticated_only sec email password users u h =
    elim (Option-cases (get_user_by_email sec email users)) [
      | inl g ↦ absurd (ground (arith, g, h))
      | inr (v, g) ↦
          let p : v ≡ u = ground (arith, g, h) in
          (g ∙ ap some p, ground (arith, g, h, p), ground (arith, g, h, p))
    ]

-- A log-in returns an account exactly when the account is stored under the normalized email, the
-- password verifies against its hash, and it is active.
pub authenticate_user_exact :
    (sec : Security) (email password : String) (users : List User) (u : User)
    → (authenticate_user sec email password users ≡ ok u) ↔ (
        (get_user_by_email sec email users ≡ some u)
        × (sec.verify_password password u.password_hash ≡ true)
        × (u.is_active ≡ true))
authenticate_user_exact sec email password users u =
    (authenticated_only sec email password users u, authenticated sec email password users u)
