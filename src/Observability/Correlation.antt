-- ===== src/Observability/Correlation.antt =====
-- `CorrelationService` and `CorrelationRepository` (observability-incident-detection-platform/src/
-- observability_platform/services/correlation_service.py, repositories/correlation_repository.py).
-- `ended_at` and `created_at` are the two times that `datetime.now` returns, `uuid` what `uuid4` does.
pub mod Uncorrelated
pub mod Analysis
use software_engineering_car.Common.{
  ℕ, ◌-◌, ◌*◌, String, Bool, true, false, not, ◌&&◌, Option, none, some, List, [], ◌∷◌, ◌++◌, map,
  ltb, leb, ◌==◌, str_eq, if◌then◌else◌, length,
}
use software_engineering_car.Common.Table.{select_where, row_at, has_key}
use software_engineering_car.Common.Sorting.{order_by}
use software_engineering_car.Observability.Model.{
  ServiceEnvironment, Identity, same_identity, identity, is_resolved, MonitoredService,
  TelemetryRecord, AnomalyRecord, IncidentRecord, CorrelationIncidentRecord,
}
use software_engineering_car.Observability.RootCause.{CorrelationSignal, RootCauseCandidate}
use software_engineering_car.Observability.RootCause as RootCause
use software_engineering_car.Observability.Store.{
  Db, Result, ok, err, Commit, committed, integrity_error, failed, Summary, CorrelationRecord,
  CorrelationStatus,
}

pub record CorrelationAnalyzeRequest : Type 0 where
  pub service : String
  pub environment : ServiceEnvironment
  pub window_minutes : ℕ
  pub minimum_incidents : ℕ

pub record CorrelationIncidentRow : Type 0 where
  pub incident : IncidentRecord
  pub anomaly : AnomalyRecord
  pub telemetry : TelemetryRecord
  pub service : MonitoredService

abbrev pub row_id : CorrelationIncidentRow → ℕ
row_id r = r.incident.id

-- The inner joins of one incident.
abbrev pub add_row :
    IncidentRecord
    → Option AnomalyRecord
    → Option TelemetryRecord
    → Option MonitoredService
    → List CorrelationIncidentRow
    → List CorrelationIncidentRow
add_row i (some a) (some t) (some s) rows =
    record { incident = i; anomaly = a; telemetry = t; service = s } ∷ rows
add_row i (some a) (some t) none rows = rows
add_row i (some a) none s rows = rows
add_row i none t s rows = rows

abbrev pub telemetry_of : List TelemetryRecord → Option AnomalyRecord → Option TelemetryRecord
telemetry_of telemetry none = none
telemetry_of telemetry (some a) = row_at TelemetryRecord.id a.telemetry_id telemetry

unfoldable pub join_rows : Db → List IncidentRecord → List CorrelationIncidentRow
join_rows db [] = []
join_rows db (i ∷ incidents) =
    let a = row_at AnomalyRecord.id i.trigger_anomaly_id db.anomalies in
    add_row i a (telemetry_of db.telemetry a) (row_at MonitoredService.id i.service_id db.services)
      (join_rows db incidents)

-- The WHERE test; the outer join leaves a null where no link names the incident.
unfoldable pub is_uncorrelated :
    Identity → ℕ → ℕ → List CorrelationIncidentRecord → CorrelationIncidentRow → Bool
is_uncorrelated i started_at ended_at links r =
    same_identity (identity r.service) i
    && leb started_at r.incident.created_at
    && leb r.incident.created_at ended_at
    && not (is_resolved r.incident.status)
    && not (has_key CorrelationIncidentRecord.incident_id r.incident.id links)

-- ORDER BY created_at, id.
unfoldable pub by_creation : CorrelationIncidentRow → CorrelationIncidentRow → Bool
by_creation a b =
    if ltb a.incident.created_at b.incident.created_at
    then true
    else if ltb b.incident.created_at a.incident.created_at
    then false
    else leb a.incident.id b.incident.id

unfoldable pub find_uncorrelated_incidents : Identity → ℕ → ℕ → Db → List CorrelationIncidentRow
find_uncorrelated_incidents i started_at ended_at db =
    order_by by_creation
      (select_where (is_uncorrelated i started_at ended_at db.links) (join_rows db db.incidents))

abbrev pub signal_of : CorrelationIncidentRow → CorrelationSignal
signal_of r = record {
  anomaly_id = r.anomaly.id;
  incident_id = r.incident.id;
  rule_id = r.anomaly.rule_id;
  category = r.anomaly.category;
  severity = r.anomaly.severity;
  source = r.telemetry.source;
  observed_at = r.telemetry.observed_at;
}

pub data CorrelationError : Type 0 where
  insufficient : (found : ℕ) → CorrelationError
  -- The ValueError of an empty list of signals.
  no_signals storage_error : CorrelationError

pub record CorrelationResponse : Type 0 where
  pub correlation : CorrelationRecord
  pub service : MonitoredService
  pub incident_ids : List ℕ
  pub root_cause : RootCauseCandidate

abbrev pub links_of : ℕ → ℕ → List ℕ → List CorrelationIncidentRecord
links_of correlation_id added_at [] = []
links_of correlation_id added_at (i ∷ ids) =
    record { correlation_id = correlation_id; incident_id = i; added_at = added_at }
    ∷ links_of correlation_id added_at ids

abbrev pub new_correlation :
    ℕ → ℕ → ℕ → ℕ → MonitoredService → Summary → RootCauseCandidate → CorrelationRecord
new_correlation uuid started_at ended_at created_at s summary root_cause = record {
  id = uuid;
  service_id = s.id;
  status = CorrelationStatus.active;
  window_started_at = started_at;
  window_ended_at = ended_at;
  root_cause_anomaly_id = root_cause.anomaly_id;
  root_cause_incident_id = root_cause.incident_id;
  root_cause_confidence = root_cause.confidence_score;
  root_cause_reasons = root_cause.reasons;
  summary = summary;
  created_at = created_at;
  updated_at = created_at;
}

-- `create`, and the commit.
abbrev pub create :
    Commit
    → CorrelationRecord
    → MonitoredService
    → List ℕ
    → RootCauseCandidate
    → Db
    → Result CorrelationError CorrelationResponse × Db
create committed correlation s ids root_cause db = (
  ok (record {
    correlation = correlation;
    service = s;
    incident_ids = ids;
    root_cause = root_cause;
  }),
  record db {
    correlations = db.correlations ++ (correlation ∷ []);
    links = db.links ++ links_of correlation.id correlation.created_at ids;
  },
)
create integrity_error correlation s ids root_cause db = (err CorrelationError.storage_error, db)
create failed correlation s ids root_cause db = (err CorrelationError.storage_error, db)

abbrev pub summary_of : CorrelationAnalyzeRequest → ℕ → RootCauseCandidate → Summary
summary_of q n root_cause = record {
  incident_count = n;
  service = q.service;
  environment = q.environment;
  rule_id = root_cause.rule_id;
  source = root_cause.source;
}

abbrev pub correlate :
    ℕ
    → ℕ
    → ℕ
    → ℕ
    → Commit
    → CorrelationAnalyzeRequest
    → List CorrelationIncidentRow
    → Option RootCauseCandidate
    → Db
    → Result CorrelationError CorrelationResponse × Db
correlate uuid started_at ended_at created_at c q [] root_cause db =
    (err CorrelationError.no_signals, db)
correlate uuid started_at ended_at created_at c q (r ∷ rows) none db =
    (err CorrelationError.no_signals, db)
correlate uuid started_at ended_at created_at c q (r ∷ rows) (some root_cause) db =
    let ids = map row_id (r ∷ rows) in
    create c
      (new_correlation uuid started_at ended_at created_at r.service
        (summary_of q (length ids) root_cause) root_cause)
      r.service ids root_cause db

abbrev pub minutes : ℕ → ℕ
minutes n = n * 60000000

unfoldable pub analyze :
    ℕ
    → ℕ
    → ℕ
    → Commit
    → CorrelationAnalyzeRequest
    → Db
    → Result CorrelationError CorrelationResponse × Db
analyze uuid ended_at created_at c q db =
    let started_at = ended_at - minutes q.window_minutes in
    let rows = find_uncorrelated_incidents (q.service, q.environment) started_at ended_at db in
    if ltb (length rows) q.minimum_incidents
    then (err (CorrelationError.insufficient (length rows)), db)
    else correlate uuid started_at ended_at created_at c q rows
        (RootCause.analyze (map signal_of rows)) db
