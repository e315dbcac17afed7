-- ===== src/Observability/Store.antt =====
-- The database of the platform (observability-incident-detection-platform/src/
-- observability_platform/db/models.py), and what every service does with it.
use software_engineering_car.Common.{ℕ, String, List, ◌≡◌, refl, ◌⊎◌, inl, inr}
use software_engineering_car.Observability.Model.{
  MonitoredService, TelemetryRecord, AnomalyRecord, IncidentRecord, TraceSpanRecord,
  CorrelationIncidentRecord, ServiceEnvironment,
}
use software_engineering_car.Observability.RootCause.{Reason}

pub data CorrelationStatus : Type 0 where
  active closed : CorrelationStatus

-- The summary's text, by what it is made of.
pub record Summary : Type 0 where
  pub incident_count : ℕ
  pub service : String
  pub environment : ServiceEnvironment
  pub rule_id : String
  pub source : String

pub record CorrelationRecord : Type 0 where
  pub id : ℕ
  pub service_id : ℕ
  pub status : CorrelationStatus
  pub window_started_at : ℕ
  pub window_ended_at : ℕ
  pub root_cause_anomaly_id : ℕ
  pub root_cause_incident_id : ℕ
  pub root_cause_confidence : ℕ
  pub root_cause_reasons : List Reason
  pub summary : Summary
  pub created_at : ℕ
  pub updated_at : ℕ

-- The tables, in the order of their inserts.
pub record Db : Type 0 where
  pub services : List MonitoredService
  pub telemetry : List TelemetryRecord
  pub anomalies : List AnomalyRecord
  pub incidents : List IncidentRecord
  pub spans : List TraceSpanRecord
  pub correlations : List CorrelationRecord
  pub links : List CorrelationIncidentRecord

-- What an operation returns or raises.
pub data Result (E : Type 0) (A : Type 0) : Type 0 where
  ok : A → Result E A
  err : E → Result E A

-- How the flush and the commit of a transaction end.
pub data Commit : Type 0 where
  committed integrity_error failed : Commit

pub Result-cases :
    {E A : Type 0} (r : Result E A) → ((a : A) × (r ≡ ok a)) ⊎ ((e : E) × (r ≡ err e))
Result-cases (ok a) = inl (a, refl)
Result-cases (err e) = inr (e, refl)

pub Commit-cases : (c : Commit) → (c ≡ committed) ⊎ ((c ≡ integrity_error) ⊎ (c ≡ failed))
Commit-cases committed = inl refl
Commit-cases integrity_error = inr (inl refl)
Commit-cases failed = inr (inr refl)
