-- ===== src/Cloud/Dashboard.antt =====
-- The dashboard (cloud-deployed-full-stack-system/backend/app/services/dashboard.py,
-- repositories/dashboard.py).
pub mod Totals
use software_engineering_car.Common.{
  ℕ, ◌+◌, String, Bool, true, false, ◌||◌, List, [], ◌∷◌, map, str_eq, if◌then◌else◌, length,
}
use software_engineering_car.Common.Table.{select_where}
use software_engineering_car.Cloud.Model.{IncidentStatus, IncidentSeverity, Incident, Db}

abbrev pub same_status : IncidentStatus → IncidentStatus → Bool
same_status IncidentStatus.opened IncidentStatus.opened = true
same_status IncidentStatus.investigating IncidentStatus.investigating = true
same_status IncidentStatus.resolved IncidentStatus.resolved = true
same_status IncidentStatus.closed IncidentStatus.closed = true
same_status _ _ = false

abbrev pub same_severity : IncidentSeverity → IncidentSeverity → Bool
same_severity IncidentSeverity.low IncidentSeverity.low = true
same_severity IncidentSeverity.medium IncidentSeverity.medium = true
same_severity IncidentSeverity.high IncidentSeverity.high = true
same_severity IncidentSeverity.critical IncidentSeverity.critical = true
same_severity _ _ = false

-- GROUP BY with `count`, and 0 for a status or severity without a group.
unfoldable pub count_by_status : List Incident → IncidentStatus → ℕ
count_by_status incidents s = length (select_where (λ i. same_status i.status s) incidents)

unfoldable pub count_by_severity : List Incident → IncidentSeverity → ℕ
count_by_severity incidents s = length (select_where (λ i. same_severity i.severity s) incidents)

abbrev pub contains_text : String → List String → Bool
contains_text s [] = false
contains_text s (t ∷ ts) = str_eq t s || contains_text s ts

unfoldable pub distinct : List String → List String
distinct [] = []
distinct (s ∷ ss) = let rest = distinct ss in if contains_text s ss then rest else s ∷ rest

abbrev pub is_active : Incident → Bool
is_active i =
    same_status i.status IncidentStatus.opened || same_status i.status IncidentStatus.investigating

unfoldable pub count_affected_services : List Incident → ℕ
count_affected_services incidents =
    length (distinct (map Incident.service_name (select_where is_active incidents)))

pub record DashboardSummary : Type 0 where
  pub total_incidents : ℕ
  pub active_incidents : ℕ
  pub critical_incidents : ℕ
  pub resolved_incidents : ℕ
  pub affected_services : ℕ
  pub status_counts : IncidentStatus → ℕ
  pub severity_counts : IncidentSeverity → ℕ

unfoldable pub get_dashboard_summary : Db → DashboardSummary
get_dashboard_summary db =
    let by_status = count_by_status db.incidents in
    let by_severity = count_by_severity db.incidents in
    record {
      total_incidents =
          by_status IncidentStatus.opened
          + by_status IncidentStatus.investigating
          + by_status IncidentStatus.resolved
          + by_status IncidentStatus.closed;
      active_incidents = by_status IncidentStatus.opened + by_status IncidentStatus.investigating;
      critical_incidents = by_severity IncidentSeverity.critical;
      resolved_incidents = by_status IncidentStatus.resolved;
      affected_services = count_affected_services db.incidents;
      status_counts = by_status;
      severity_counts = by_severity;
    }
