-- ===== src/Cloud/Dashboard/Totals.antt =====
-- The dashboard's counts add up.
use software_engineering_car.Common.{
  ◌+◌, ◌≤◌, ◌≡◌, refl, String, List, [], ◌∷◌, map, length, length-map, arith,
}
use software_engineering_car.Common.Table.{select_where}
use software_engineering_car.Cloud.Model.{IncidentStatus, IncidentSeverity, Incident, Db}
use software_engineering_car.Cloud.Dashboard.{
  count_by_status, count_by_severity, distinct, is_active, count_affected_services,
  get_dashboard_summary,
}

statuses :
    (rows : List Incident)
    → count_by_status rows IncidentStatus.opened
        + count_by_status rows IncidentStatus.investigating
        + count_by_status rows IncidentStatus.resolved
        + count_by_status rows IncidentStatus.closed
      ≡ length rows
unfolding count_by_status select_where
statuses [] = omega arith
statuses (i ∷ rows) = ground (arith, statuses rows)

severities :
    (rows : List Incident)
    → count_by_severity rows IncidentSeverity.low
        + count_by_severity rows IncidentSeverity.medium
        + count_by_severity rows IncidentSeverity.high
        + count_by_severity rows IncidentSeverity.critical
      ≡ length rows
unfolding count_by_severity select_where
severities [] = omega arith
severities (i ∷ rows) = ground (arith, severities rows)

active :
    (rows : List Incident)
    → length (select_where is_active rows)
      ≡ count_by_status rows IncidentStatus.opened
        + count_by_status rows IncidentStatus.investigating
unfolding count_by_status select_where
active [] = omega arith
active (i ∷ rows) = ground (arith, active rows)

length-distinct : (ss : List String) → length (distinct ss) ≤ length ss
unfolding distinct
length-distinct [] = omega arith
length-distinct (s ∷ ss) = ground (arith, length-distinct ss)

-- The dashboard's total is the number of incidents; the active, resolved and closed ones add up to
-- it, and so do the severities; no more services are affected than incidents are active.
pub dashboard_totals :
    (db : Db)
    → let d = get_dashboard_summary db in
      (d.total_incidents ≡ length db.incidents)
      × (d.active_incidents + d.resolved_incidents + d.status_counts IncidentStatus.closed
          ≡ d.total_incidents)
      × (d.severity_counts IncidentSeverity.low
            + d.severity_counts IncidentSeverity.medium
            + d.severity_counts IncidentSeverity.high
            + d.critical_incidents
          ≡ d.total_incidents)
      × (d.affected_services ≤ d.active_incidents)
unfolding get_dashboard_summary count_affected_services
dashboard_totals db =
    let names = map Incident.service_name (select_where is_active db.incidents) in
    let n = length-map Incident.service_name (select_where is_active db.incidents) in
    (
      statuses db.incidents,
      refl,
      omega (arith, severities db.incidents, statuses db.incidents),
      omega (arith, length-distinct names, n, active db.incidents),
    )
