-- ===== src/Observability/Telemetry.antt =====
-- `PersistentTelemetryService` (observability-incident-detection-platform/src/observability_platform/
-- services/persistent_telemetry_service.py) with the `create_batch` of the telemetry, anomaly and
-- incident repositories. `uuid` is the first of the numbers that `uuid4` returns, in order, and
-- `now` is the time of receipt.
pub mod Batches
pub mod Ingest
use Prim.Native.String.{◌++◌ as ◌+++◌}
use software_engineering_car.Common.{
  ℕ, suc, ◌+◌, String, Bool, true, false, Option, none, some, List, [], ◌∷◌, ◌++◌, map, ◌==◌,
  if◌then◌else◌, length,
}
use software_engineering_car.Observability.Model.{
  AnomalySeverity, IncidentStatus, is_critical, Identity, TelemetryItem, base_of, item_type,
  item_identity, TelemetryRecord, AnomalyRecord, IncidentRecord,
}
use software_engineering_car.Observability.Store.{
  Db, Result, ok, err, Commit, committed, integrity_error, failed,
}
use software_engineering_car.Observability.Registry.{resolve_services}
use software_engineering_car.Observability.Detection.{Python, AnomalyFinding, evaluate}

pub data IngestError : Type 0 where
  unregistered : Identity → IngestError
  -- A KeyError or a ValueError of `zip(strict=True)`, or an error of the database.
  internal_error storage_error : IngestError

pub record TelemetryIngestResponse : Type 0 where
  pub accepted_count : ℕ
  pub telemetry_ids : List ℕ
  pub received_at : ℕ
  pub detected_anomaly_count : ℕ
  pub anomaly_ids : List ℕ
  pub created_incident_count : ℕ
  pub incident_ids : List ℕ

-- `TelemetryRepository.create_batch`, `AnomalyRepository.create_batch`,
-- `IncidentRepository.create_batch`: the rows that they add.
unfoldable pub telemetry_batch : ℕ → ℕ → List (TelemetryItem × ℕ) → List TelemetryRecord
telemetry_batch uuid now [] = []
telemetry_batch uuid now ((item, service_id) ∷ items) =
    record {
      id = uuid;
      service_id = service_id;
      telemetry_type = item_type item;
      source = (base_of item).source;
      observed_at = (base_of item).timestamp;
      received_at = now;
      payload = item;
    }
    ∷ telemetry_batch (suc uuid) now items

unfoldable pub anomaly_batch : ℕ → ℕ → List (AnomalyFinding × ℕ) → List AnomalyRecord
anomaly_batch uuid now [] = []
anomaly_batch uuid now ((finding, telemetry_id) ∷ findings) =
    record {
      id = uuid;
      telemetry_id = telemetry_id;
      rule_id = finding.rule_id;
      category = finding.category;
      severity = finding.severity;
      title = finding.title;
      description = finding.description;
      observed_value = finding.observed_value;
      threshold = finding.threshold;
      detected_at = now;
    }
    ∷ anomaly_batch (suc uuid) now findings

unfoldable pub incident_batch : ℕ → ℕ → List (AnomalyRecord × ℕ) → List IncidentRecord
incident_batch uuid now [] = []
incident_batch uuid now ((anomaly, service_id) ∷ anomalies) =
    record {
      id = uuid;
      service_id = service_id;
      trigger_anomaly_id = anomaly.id;
      status = IncidentStatus.opened;
      severity = anomaly.severity;
      title = "Incident: " +++ anomaly.title;
      description = anomaly.description;
      created_at = now;
      acknowledged_at = none;
      acknowledged_by = none;
      resolved_at = none;
      resolved_by = none;
      resolution_summary = none;
    }
    ∷ incident_batch (suc uuid) now anomalies

abbrev pub with_id : ℕ → List AnomalyFinding → List (AnomalyFinding × ℕ)
with_id telemetry_id [] = []
with_id telemetry_id (f ∷ fs) = (f, telemetry_id) ∷ with_id telemetry_id fs

-- A `zip(strict=True)` of lists of different lengths raises.
abbrev pub optional_append : {A : Type 0} → List A → Option (List A) → Option (List A)
optional_append xs none = none
optional_append xs (some ys) = some (xs ++ ys)

unfoldable pub findings_with_telemetry_ids :
    Python → List TelemetryItem → List TelemetryRecord → Option (List (AnomalyFinding × ℕ))
findings_with_telemetry_ids py [] [] = some []
findings_with_telemetry_ids py [] (r ∷ records) = none
findings_with_telemetry_ids py (i ∷ items) [] = none
findings_with_telemetry_ids py (i ∷ items) (r ∷ records) =
    optional_append (with_id r.id (evaluate py i)) (findings_with_telemetry_ids py items records)

-- The dictionary `service_id_by_telemetry_id`: a later record overwrites an earlier one.
abbrev pub or_else : Option ℕ → Option ℕ → Option ℕ
or_else (some k) other = some k
or_else none other = other

unfoldable pub service_id_by_telemetry_id : List TelemetryRecord → ℕ → Option ℕ
service_id_by_telemetry_id [] k = none
service_id_by_telemetry_id (r ∷ records) k =
    or_else (service_id_by_telemetry_id records k) (if r.id == k then some r.service_id else none)

abbrev pub with_service :
    AnomalyRecord → Option ℕ → Option (List (AnomalyRecord × ℕ)) → Option (List (AnomalyRecord × ℕ))
with_service a none rest = none
with_service a (some service_id) none = none
with_service a (some service_id) (some rest) = some ((a, service_id) ∷ rest)

unfoldable pub critical_anomalies :
    List TelemetryRecord
    → List AnomalyRecord
    → List (AnomalyFinding × ℕ)
    → Option (List (AnomalyRecord × ℕ))
critical_anomalies records [] [] = some []
critical_anomalies records [] (f ∷ findings) = none
critical_anomalies records (a ∷ anomalies) [] = none
critical_anomalies records (a ∷ anomalies) ((finding, telemetry_id) ∷ findings) =
    let rest = critical_anomalies records anomalies findings in
    if is_critical finding.severity
    then with_service a (service_id_by_telemetry_id records telemetry_id) rest
    else rest

abbrev pub stored :
    ℕ
    → Db
    → List TelemetryRecord
    → List AnomalyRecord
    → List IncidentRecord
    → Commit
    → Result IngestError TelemetryIngestResponse × Db
stored now db records anomalies incidents committed = (
  ok (record {
    accepted_count = length records;
    telemetry_ids = map TelemetryRecord.id records;
    received_at = now;
    detected_anomaly_count = length anomalies;
    anomaly_ids = map AnomalyRecord.id anomalies;
    created_incident_count = length incidents;
    incident_ids = map IncidentRecord.id incidents;
  }),
  record db {
    telemetry = db.telemetry ++ records;
    anomalies = db.anomalies ++ anomalies;
    incidents = db.incidents ++ incidents;
  },
)
stored now db records anomalies incidents integrity_error = (err IngestError.storage_error, db)
stored now db records anomalies incidents failed = (err IngestError.storage_error, db)

abbrev pub store_incidents :
    ℕ
    → ℕ
    → Commit
    → Db
    → List TelemetryRecord
    → List AnomalyRecord
    → Option (List (AnomalyRecord × ℕ))
    → Result IngestError TelemetryIngestResponse × Db
store_incidents uuid now c db records anomalies none = (err IngestError.internal_error, db)
store_incidents uuid now c db records anomalies (some critical) =
    stored now db records anomalies (incident_batch uuid now critical) c

abbrev pub store_findings :
    ℕ
    → ℕ
    → Commit
    → Db
    → List TelemetryRecord
    → Option (List (AnomalyFinding × ℕ))
    → Result IngestError TelemetryIngestResponse × Db
store_findings uuid now c db records none = (err IngestError.internal_error, db)
store_findings uuid now c db records (some findings) =
    let anomalies = anomaly_batch uuid now findings in
    store_incidents (uuid + length findings) now c db records anomalies
      (critical_anomalies records anomalies findings)

abbrev pub store_batch :
    Python
    → ℕ
    → ℕ
    → Commit
    → Db
    → List TelemetryItem
    → Result Identity (List (TelemetryItem × ℕ))
    → Result IngestError TelemetryIngestResponse × Db
store_batch py uuid now c db items (err i) = (err (IngestError.unregistered i), db)
store_batch py uuid now c db items (ok resolved) =
    let records = telemetry_batch uuid now resolved in
    store_findings (uuid + length resolved) now c db records
      (findings_with_telemetry_ids py items records)

unfoldable pub ingest :
    Python
    → ℕ
    → ℕ
    → Commit
    → List TelemetryItem
    → Db
    → Result IngestError TelemetryIngestResponse × Db
ingest py uuid now c items db =
    store_batch py uuid now c db items (resolve_services item_identity db.services items [])
