-- ===== src/Cloud/Incidents.antt =====
-- Incidents with their audit trail (cloud-deployed-full-stack-system/backend/app/services/
-- incidents.py, repositories/incidents.py). `uuid` is the id of a new row, `event` that of its audit
-- event, `now` the time of the update; the primary key refuses an id that is there.
pub mod Fields
pub mod Replay
pub mod Trail
use software_engineering_car.Common.{
  ℕ, String, Bool, true, false, Option, none, some, List, [], ◌∷◌, ◌++◌, map, ◌==◌, not,
  if◌then◌else◌,
}
use software_engineering_car.Common.Table.{row_at, has_key, update_where, select_where}
use software_engineering_car.Cloud.Model.{
  IncidentStatus, IncidentSeverity, status_value, severity_value, Incident, User, AuditAction,
  AuditResourceType, Value, null, text, flag, Change, Db, Commit, committed, failed,
}
use software_engineering_car.Cloud.Audit.{
  get_value, build_change_set, audit_event, record_audit_event,
}

pub record IncidentCreate : Type 0 where
  pub title : String
  pub description : String
  pub service_name : String
  pub severity : IncidentSeverity

pub record IncidentUpdate : Type 0 where
  pub title : Option String
  pub description : Option String
  pub service_name : Option String
  pub severity : Option IncidentSeverity
  pub status : Option IncidentStatus

pub data IncidentError : Type 0 where
  not_found storage_error : IncidentError

pub data Result (A : Type 0) : Type 0 where
  ok : A → Result A
  err : IncidentError → Result A

-- The fields of a row, as `getattr` gives them, normalized.
abbrev pub fields_of : Incident → List (String × Value)
fields_of i =
    ("title", text i.title)
    ∷ ("description", text i.description)
    ∷ ("service_name", text i.service_name)
    ∷ ("severity", text (severity_value i.severity))
    ∷ ("status", text (status_value i.status))
    ∷ []

abbrev pub no_values : List (String × Value) → List (String × Value)
no_values [] = []
no_values ((f, v) ∷ values) = (f, null) ∷ no_values values

abbrev pub new_incident : ℕ → ℕ → IncidentCreate → Incident
new_incident uuid now d = record {
  id = uuid;
  title = d.title;
  description = d.description;
  service_name = d.service_name;
  severity = d.severity;
  status = IncidentStatus.opened;
  created_at = now;
  updated_at = now;
}

-- The commit, or the rollback of both the row and its event.
abbrev pub finish : {A : Type 0} → Commit → A → Db → Db → Result A × Db
finish committed a db' db = (ok a, db')
finish failed a db' db = (err IncidentError.storage_error, db)

unfoldable pub create_incident :
    ℕ → ℕ → ℕ → Commit → IncidentCreate → User → Db → Result Incident × Db
create_incident uuid event now c d actor db =
    let i = new_incident uuid now d in
    let changes = build_change_set (no_values (fields_of i)) (fields_of i) in
    if has_key Incident.id uuid db.incidents
    then (err IncidentError.storage_error, db)
    else finish c i
        (record_audit_event
          (audit_event event actor AuditAction.incident_created AuditResourceType.incident uuid
            i.title changes)
          (record db { incidents = db.incidents ++ (i ∷ []) }))
        db

unfoldable pub get_incident : ℕ → Db → Result Incident
get_incident incident_id db = elim (row_at Incident.id incident_id db.incidents) [
  | none ↦ err IncidentError.not_found
  | some i ↦ ok i
]

-- `model_dump(exclude_unset=True, exclude_none=True)`.
abbrev pub field_set :
    {A : Type 0} → String → (A → String) → Option A → List (String × Value) → List (String × Value)
field_set f value none rest = rest
field_set f value (some a) rest = (f, text (value a)) ∷ rest

abbrev pub requested_values : IncidentUpdate → List (String × Value)
requested_values u =
    field_set "title" (λ s. s) u.title
      (field_set "description" (λ s. s) u.description
        (field_set "service_name" (λ s. s) u.service_name
          (field_set "severity" severity_value u.severity
            (field_set "status" status_value u.status []))))

abbrev pub previous_values : Incident → List (String × Value) → List (String × Value)
previous_values i [] = []
previous_values i ((f, v) ∷ requested) =
    (f, get_value f (fields_of i)) ∷ previous_values i requested

abbrev pub assign : {A : Type 0} → Option A → A → A
assign none a = a
assign (some b) a = b

-- The `setattr` loop, and `onupdate` of the time.
abbrev pub updated : IncidentUpdate → ℕ → Incident → Incident
updated u now i = record i {
  title = assign u.title i.title;
  description = assign u.description i.description;
  service_name = assign u.service_name i.service_name;
  severity = assign u.severity i.severity;
  status = assign u.status i.status;
  updated_at = now;
}

abbrev pub update_row :
    ℕ → ℕ → Commit → IncidentUpdate → User → Db → Incident → List Change → Result Incident × Db
update_row event now c u actor db i [] = (ok i, db)
update_row event now c u actor db i (x ∷ changes) =
    finish c (updated u now i)
      (record_audit_event
        (audit_event event actor AuditAction.incident_updated AuditResourceType.incident i.id
          (updated u now i).title (x ∷ changes))
        (record db { incidents = update_where (λ r. r.id == i.id) (updated u now) db.incidents }))
      db

unfoldable pub update_incident :
    ℕ → ℕ → ℕ → Commit → IncidentUpdate → User → Db → Result Incident × Db
update_incident incident_id event now c u actor db =
    elim (row_at Incident.id incident_id db.incidents) [
      | none ↦ (err IncidentError.not_found, db)
      | some i ↦
          update_row event now c u actor db i
            (build_change_set (previous_values i (requested_values u)) (requested_values u))
    ]

abbrev pub deletion : List Change
deletion = record { field = "deleted"; before = flag false; after = flag true } ∷ []

unfoldable pub delete_incident : ℕ → ℕ → Commit → User → Db → Result (Unit {0}) × Db
delete_incident incident_id event c actor db = elim (row_at Incident.id incident_id db.incidents) [
  | none ↦ (err IncidentError.not_found, db)
  | some i ↦
      finish c tt
        (record_audit_event
          (audit_event event actor AuditAction.incident_deleted AuditResourceType.incident i.id
            i.title deletion)
          (record db { incidents = select_where (λ r. not (r.id == i.id)) db.incidents }))
        db
]
