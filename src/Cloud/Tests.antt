-- ===== src/Cloud/Tests.antt =====
-- Runs of the cloud backend at concrete inputs.
use mathlib.Core.Bool.{false≢true}
use software_engineering_car.Common.{
  ◌+◌, ◌≤◌, ◌≡◌, refl, true, ◌↔◌, none, some, List, [], ◌∷◌, length, str_eq, if◌then◌else◌,
}
use software_engineering_car.Common.Table.{row_at, has_key, update_where, select_where}
use software_engineering_car.Cloud.Model.{
  text, IncidentStatus, IncidentSeverity, User, UserRole, Db, committed, failed,
}
use software_engineering_car.Cloud.Audit.{build_change_set}
use software_engineering_car.Cloud.Incidents.{
  IncidentCreate, IncidentUpdate, create_incident, update_incident, delete_incident,
}
use software_engineering_car.Cloud.Incidents.Replay.{replay, Tells}
use software_engineering_car.Cloud.Incidents.Trail as Trail
use software_engineering_car.Cloud.Incidents.Trail.{run-Tells}
use software_engineering_car.Cloud.Users.{
  Security, UserCreate, has_email, register_user, granted, require_roles,
}
use software_engineering_car.Cloud.Users.Emails as Emails
use software_engineering_car.Cloud.Users.Emails.{register_user_stale}
use software_engineering_car.Cloud.Users.Grants.{IsAllowed, require_roles_exact}
use software_engineering_car.Cloud.Dashboard.{DashboardSummary, get_dashboard_summary}
use software_engineering_car.Cloud.Dashboard.Totals.{dashboard_totals}

abbrev plain : Security
plain = record {
  normalize = λ s. s;
  strip = λ s. s;
  hash_password = λ s. s;
  verify_password = str_eq;
  dummy_password_hash = "-";
  jwt_decode = λ s.
      if str_eq s "signed" then some (record { type = text "access"; sub = text "1" }) else none;
  uuid = λ s. if str_eq s "1" then some 1 else none;
}

abbrev ann : User
ann = record {
  id = 1;
  email = "ann@example.com";
  full_name = "Ann";
  password_hash = "secret";
  role = UserRole.operator;
  is_active = true;
}

abbrev empty_db : Db
empty_db = record { incidents = []; users = []; events = [] }

abbrev report : IncidentCreate
report = record {
  title = "Errors";
  description = "Many errors.";
  service_name = "api";
  severity = IncidentSeverity.high;
}

abbrev investigate : IncidentUpdate
investigate = record {
  title = none;
  description = none;
  service_name = some "api";
  severity = none;
  status = some IncidentStatus.investigating;
}

empty_db-Tells : Tells empty_db
unfolding replay
empty_db-Tells = record { replays = refl; unique = tt }

abbrev edits : List Trail.Op
edits =
    Trail.Op.create 1 10 100 committed report ann
    ∷ Trail.Op.create 2 11 101 committed report ann
    ∷ Trail.Op.update 1 12 102 committed investigate ann
    ∷ Trail.Op.delete 2 13 failed ann
    ∷ Trail.Op.delete 2 14 committed ann
    ∷ []

run-Tells_example : Tells (Trail.run edits empty_db)
run-Tells_example = run-Tells edits empty_db empty_db-Tells

four_events : length (Trail.run edits empty_db).events ≡ 4
unfolding Trail.run Trail.apply create_incident update_incident delete_incident build_change_set
    row_at has_key update_where select_where
four_events = refl

abbrev sign_up : UserCreate
sign_up = record { email = "ann@example.com"; full_name = "Ann"; password = "secret" }

abbrev sign_ups : List Emails.Op
sign_ups =
    Emails.Op.register 1 committed sign_up []
    ∷ Emails.Op.register 2 committed sign_up []
    ∷ Emails.Op.change_role 1 20 committed UserRole.admin ann
    ∷ []

register_user_stale_example :
    register_user plain 2 committed sign_up [] (record empty_db { users = ann ∷ [] })
    ≡ register_user plain 2 committed sign_up (ann ∷ []) (record empty_db { users = ann ∷ [] })
register_user_stale_example =
    register_user_stale plain 2 sign_up [] (record empty_db { users = ann ∷ [] })
      (λ e h. absurd (false≢true (unfold has_email in h)))

require_roles_exact_example :
    (require_roles plain (UserRole.operator ∷ []) "signed" (ann ∷ []) ≡ granted ann)
    ↔ IsAllowed plain (UserRole.operator ∷ []) "signed" (ann ∷ []) ann
require_roles_exact_example =
    require_roles_exact plain (UserRole.operator ∷ []) "signed" (ann ∷ []) ann

abbrev summary : DashboardSummary
summary = get_dashboard_summary (Trail.run edits empty_db)

dashboard_totals_example :
    (summary.total_incidents ≡ length (Trail.run edits empty_db).incidents)
    × (summary.active_incidents
          + summary.resolved_incidents
          + summary.status_counts IncidentStatus.closed
        ≡ summary.total_incidents)
    × (summary.severity_counts IncidentSeverity.low
          + summary.severity_counts IncidentSeverity.medium
          + summary.severity_counts IncidentSeverity.high
          + summary.critical_incidents
        ≡ summary.total_incidents)
    × (summary.affected_services ≤ summary.active_incidents)
dashboard_totals_example = dashboard_totals (Trail.run edits empty_db)
