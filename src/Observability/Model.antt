-- ===== src/Observability/Model.antt =====
-- The rows and enumerations of observability-incident-detection-platform/src/observability_platform/
-- db/models.py and schemas/. UUIDs are numbers, in the order of their text; times are microseconds.
use software_engineering_car.Common.{ℕ, String, Option, Bool, true, false, ◌&&◌, str_eq}
use software_engineering_car.Common.Int.{ℤ}

pub data ServiceEnvironment : Type 0 where
  development testing staging production : ServiceEnvironment

abbrev pub same_environment : ServiceEnvironment → ServiceEnvironment → Bool
same_environment ServiceEnvironment.development ServiceEnvironment.development = true
same_environment ServiceEnvironment.testing ServiceEnvironment.testing = true
same_environment ServiceEnvironment.staging ServiceEnvironment.staging = true
same_environment ServiceEnvironment.production ServiceEnvironment.production = true
same_environment _ _ = false

pub data AnomalyCategory : Type 0 where
  metric_threshold log_severity event_severity : AnomalyCategory

pub data AnomalySeverity : Type 0 where
  warning critical : AnomalySeverity

abbrev pub is_critical : AnomalySeverity → Bool
is_critical AnomalySeverity.warning = false
is_critical AnomalySeverity.critical = true

pub data IncidentStatus : Type 0 where
  opened acknowledged resolved : IncidentStatus

abbrev pub is_open : IncidentStatus → Bool
is_open IncidentStatus.opened = true
is_open IncidentStatus.acknowledged = false
is_open IncidentStatus.resolved = false

abbrev pub is_resolved : IncidentStatus → Bool
is_resolved IncidentStatus.opened = false
is_resolved IncidentStatus.acknowledged = false
is_resolved IncidentStatus.resolved = true

pub data SpanStatus : Type 0 where
  unset ok error : SpanStatus

-- A service's name and environment.
abbrev pub Identity : Type 0
Identity = String × ServiceEnvironment

abbrev pub same_identity : Identity → Identity → Bool
same_identity a b = str_eq a.0 b.0 && same_environment a.1 b.1

pub record MonitoredService : Type 0 where
  pub id : ℕ
  pub name : String
  pub environment : ServiceEnvironment
  pub description : Option String

abbrev pub identity : MonitoredService → Identity
identity s = (s.name, s.environment)

-- A JSON value that is a text or a number.
pub data Value : Type 0 where
  text : String → Value
  number : ℤ → Value

-- A float is counted in the units of `Detection.Python`; `attributes` is JSON text.
pub data LogLevel : Type 0 where
  debug info warning error critical : LogLevel

pub data EventSeverity : Type 0 where
  info warning error critical : EventSeverity

pub record TelemetryBase : Type 0 where
  pub service : String
  pub environment : ServiceEnvironment
  pub source : String
  pub timestamp : ℕ
  pub attributes : String

pub data TelemetryItem : Type 0 where
  metric : (base : TelemetryBase) (name : String) (value : ℤ) (unit : Option String) → TelemetryItem
  log : (base : TelemetryBase) (level : LogLevel) (message : String) → TelemetryItem
  event :
      (base : TelemetryBase) (name : String) (severity : EventSeverity)
      (description : Option String)
      → TelemetryItem

abbrev pub base_of : TelemetryItem → TelemetryBase
base_of (TelemetryItem.metric b name value unit) = b
base_of (TelemetryItem.log b level message) = b
base_of (TelemetryItem.event b name severity description) = b

abbrev pub item_type : TelemetryItem → String
item_type (TelemetryItem.metric b name value unit) = "metric"
item_type (TelemetryItem.log b level message) = "log"
item_type (TelemetryItem.event b name severity description) = "event"

abbrev pub item_identity : TelemetryItem → Identity
item_identity i = ((base_of i).service, (base_of i).environment)

pub record TelemetryRecord : Type 0 where
  pub id : ℕ
  pub service_id : ℕ
  pub telemetry_type : String
  pub source : String
  pub observed_at : ℕ
  pub received_at : ℕ
  pub payload : TelemetryItem

pub record AnomalyRecord : Type 0 where
  pub id : ℕ
  pub telemetry_id : ℕ
  pub rule_id : String
  pub category : AnomalyCategory
  pub severity : AnomalySeverity
  pub title : String
  pub description : String
  pub observed_value : Value
  pub threshold : Value
  pub detected_at : ℕ

pub record IncidentRecord : Type 0 where
  pub id : ℕ
  pub service_id : ℕ
  pub trigger_anomaly_id : ℕ
  pub status : IncidentStatus
  pub severity : AnomalySeverity
  pub title : String
  pub description : String
  pub created_at : ℕ
  pub acknowledged_at : Option ℕ
  pub acknowledged_by : Option String
  pub resolved_at : Option ℕ
  pub resolved_by : Option String
  pub resolution_summary : Option String

pub record TraceSpanRecord : Type 0 where
  pub id : ℕ
  pub service_id : ℕ
  pub trace_id : String
  pub span_id : String
  pub parent_span_id : Option String
  pub source : String
  pub operation : String
  pub status : SpanStatus
  pub started_at : ℕ
  pub ended_at : ℕ
  pub duration : ℕ
  pub attributes : String
  pub received_at : ℕ

pub record CorrelationIncidentRecord : Type 0 where
  pub correlation_id : ℕ
  pub incident_id : ℕ
  pub added_at : ℕ
