-- ===== src/Observability/Incidents.antt =====
-- `IncidentService` and `IncidentRepository` (observability-incident-detection-platform/src/
-- observability_platform/services/incident_service.py, repositories/incident_repository.py).
pub mod Transitions
pub mod Race
use software_engineering_car.Common.{
  ℕ, String, Bool, true, false, not, ◌&&◌, Option, none, some, List, [], ◌∷◌, ltb, leb, ◌==◌,
  str_eq, if◌then◌else◌, length, take, drop,
}
use software_engineering_car.Common.Table.{select_where, update_where, row_at}
use software_engineering_car.Common.Sorting.{order_by}
use software_engineering_car.Observability.Model.{
  ServiceEnvironment, same_environment, IncidentStatus, is_open, is_resolved, AnomalySeverity,
  is_critical, MonitoredService, IncidentRecord,
}
use software_engineering_car.Observability.Store.{
  Db, Result, ok, err, Commit, committed, integrity_error, failed,
}

pub data IncidentError : Type 0 where
  not_found invalid_time_range storage_error : IncidentError
  invalid_transition : IncidentStatus → IncidentError

-- A row with its service: all columns of the row, and the service's name and environment.
pub record IncidentResponse : Type 0 where
  pub incident : IncidentRecord
  pub service : String
  pub environment : ServiceEnvironment

abbrev pub to_response : IncidentRecord → MonitoredService → IncidentResponse
to_response i s = record { incident = i; service = s.name; environment = s.environment }

-- The inner join on the service id.
abbrev pub join_service :
    IncidentRecord → Option MonitoredService → Option (IncidentRecord × MonitoredService)
join_service i none = none
join_service i (some s) = some (i, s)

abbrev pub join_row :
    List MonitoredService → Option IncidentRecord → Option (IncidentRecord × MonitoredService)
join_row services none = none
join_row services (some i) = join_service i (row_at MonitoredService.id i.service_id services)

unfoldable pub get_by_id : ℕ → Db → Option (IncidentRecord × MonitoredService)
get_by_id incident_id db = join_row db.services (row_at IncidentRecord.id incident_id db.incidents)

unfoldable pub get : ℕ → Db → Result IncidentError IncidentResponse
get incident_id db = elim (get_by_id incident_id db) [
  | none ↦ err IncidentError.not_found
  | some (i, s) ↦ ok (to_response i s)
]

-- The flush and commit of the assignments `f` to the row of `i`.
abbrev pub save :
    Commit
    → (IncidentRecord → IncidentRecord)
    → IncidentRecord
    → MonitoredService
    → Db
    → Result IncidentError IncidentResponse × Db
save committed f i s db = (
  ok (to_response (f i) s),
  record db { incidents = update_where (λ x. x.id == i.id) f db.incidents },
)
save integrity_error f i s db = (err IncidentError.storage_error, db)
save failed f i s db = (err IncidentError.storage_error, db)

abbrev pub acknowledged_row : ℕ → String → IncidentRecord → IncidentRecord
acknowledged_row now acknowledged_by i = record i {
  status = IncidentStatus.acknowledged;
  acknowledged_at = some now;
  acknowledged_by = some acknowledged_by;
}

abbrev pub resolved_row : ℕ → String → String → IncidentRecord → IncidentRecord
resolved_row now resolved_by resolution_summary i = record i {
  status = IncidentStatus.resolved;
  resolved_at = some now;
  resolved_by = some resolved_by;
  resolution_summary = some resolution_summary;
}

-- The two statements of an acknowledgement: the SELECT, without a lock, on the tables `seen`, and the
-- UPDATE of the assigned columns, by the id alone, on the tables `db` that it finds.
unfoldable pub acknowledge_read :
    Db → ℕ → ℕ → Commit → String → Db → Result IncidentError IncidentResponse × Db
acknowledge_read seen incident_id now c acknowledged_by db = elim (get_by_id incident_id seen) [
  | none ↦ (err IncidentError.not_found, db)
  | some (i, s) ↦
      if is_open i.status
      then save c (acknowledged_row now acknowledged_by) i s db
      else (err (IncidentError.invalid_transition i.status), db)
]

-- An acknowledgement that no other transaction comes between.
unfoldable pub acknowledge :
    ℕ → ℕ → Commit → String → Db → Result IncidentError IncidentResponse × Db
unfolding acknowledge_read
acknowledge incident_id now c acknowledged_by db =
    acknowledge_read db incident_id now c acknowledged_by db

-- A resolution reads and writes in the same way.
unfoldable pub resolve_read :
    Db → ℕ → ℕ → Commit → String → String → Db → Result IncidentError IncidentResponse × Db
resolve_read seen incident_id now c resolved_by resolution_summary db =
    elim (get_by_id incident_id seen) [
      | none ↦ (err IncidentError.not_found, db)
      | some (i, s) ↦
          if is_resolved i.status
          then (err (IncidentError.invalid_transition i.status), db)
          else save c (resolved_row now resolved_by resolution_summary) i s db
    ]

unfoldable pub resolve :
    ℕ → ℕ → Commit → String → String → Db → Result IncidentError IncidentResponse × Db
unfolding resolve_read
resolve incident_id now c resolved_by resolution_summary db =
    resolve_read db incident_id now c resolved_by resolution_summary db

-- The filters of a query; one that is none is left out.
pub record Filters : Type 0 where
  pub service : Option String
  pub environment : Option ServiceEnvironment
  pub status : Option IncidentStatus
  pub severity : Option AnomalySeverity
  pub created_from : Option ℕ
  pub created_to : Option ℕ

abbrev pub passes : {A : Type 0} → (A → Bool) → Option A → Bool
passes p none = true
passes p (some a) = p a

abbrev pub same_status : IncidentStatus → IncidentStatus → Bool
same_status IncidentStatus.opened IncidentStatus.opened = true
same_status IncidentStatus.acknowledged IncidentStatus.acknowledged = true
same_status IncidentStatus.resolved IncidentStatus.resolved = true
same_status _ _ = false

abbrev pub same_severity : AnomalySeverity → AnomalySeverity → Bool
same_severity AnomalySeverity.warning AnomalySeverity.warning = true
same_severity AnomalySeverity.critical AnomalySeverity.critical = true
same_severity _ _ = false

unfoldable pub matches : Filters → IncidentRecord × MonitoredService → Bool
matches f (i, s) =
    passes (str_eq s.name) f.service
    && passes (same_environment s.environment) f.environment
    && passes (same_status i.status) f.status
    && passes (same_severity i.severity) f.severity
    && passes (λ t. leb t i.created_at) f.created_from
    && passes (leb i.created_at) f.created_to

-- The joined rows, in the order of the incidents.
abbrev pub add_row : {A : Type 0} → Option A → List A → List A
add_row none rows = rows
add_row (some a) rows = a ∷ rows

unfoldable pub join_services :
    List MonitoredService → List IncidentRecord → List (IncidentRecord × MonitoredService)
join_services services [] = []
join_services services (i ∷ incidents) =
    add_row (join_row services (some i)) (join_services services incidents)

-- ORDER BY created_at DESC, id DESC.
unfoldable pub newest_first :
    IncidentRecord × MonitoredService → IncidentRecord × MonitoredService → Bool
newest_first (a, s) (b, t) =
    if ltb b.created_at a.created_at
    then true
    else if ltb a.created_at b.created_at
    then false
    else leb b.id a.id

pub record IncidentQueryResponse : Type 0 where
  pub items : List (IncidentRecord × MonitoredService)
  pub total : ℕ

abbrev pub reversed : Option ℕ → Option ℕ → Bool
reversed none created_to = false
reversed (some a) none = false
reversed (some a) (some b) = ltb b a

unfoldable pub query_rows : Filters → ℕ → ℕ → Db → IncidentQueryResponse
query_rows f limit offset db =
    let rows = select_where (matches f) (join_services db.services db.incidents) in
    record { items = take limit (drop offset (order_by newest_first rows)); total = length rows }

unfoldable pub query : Filters → ℕ → ℕ → Db → Result IncidentError IncidentQueryResponse
query f limit offset db =
    if reversed f.created_from f.created_to
    then err IncidentError.invalid_time_range
    else ok (query_rows f limit offset db)
