-- ===== src/Observability/Detection.antt =====
-- `AnomalyDetectionEngine` (observability-incident-detection-platform/src/observability_platform/
-- services/anomaly_detection.py), on the items of schemas/telemetry.py. A float is a number of
-- `one`-ths: every finite double is a whole number of 2^-1074. `show` is Python's `str` of a float.
pub mod Rules
use Prim.Native.String.{◌++◌ as ◌+++◌}
use software_engineering_car.Common.{
  ℕ, ◌*◌, String, Bool, true, false, not, ◌&&◌, Option, none, some, List, [], ◌∷◌, ◌++◌, ltb, leb,
  str_eq, opt_str_eq, if◌then◌else◌,
}
use software_engineering_car.Common.Int.{ℤ, pos, ltb_ℤ}
use software_engineering_car.Observability.Model.{
  ServiceEnvironment, AnomalyCategory, AnomalySeverity, Value, LogLevel, EventSeverity,
  TelemetryBase, TelemetryItem,
}

pub record AnomalyFinding : Type 0 where
  pub rule_id : String
  pub category : AnomalyCategory
  pub severity : AnomalySeverity
  pub title : String
  pub description : String
  pub service : String
  pub environment : ServiceEnvironment
  pub source : String
  pub observed_at : ℕ
  pub observed_value : Value
  pub threshold : Value

-- `threshold` is a number of whole units.
pub record MetricThresholdRule : Type 0 where
  pub rule_id : String
  pub metric_name : String
  pub threshold : ℕ
  pub unit : String
  pub severity : AnomalySeverity
  pub title : String

abbrev pub metric_rules : List MetricThresholdRule
metric_rules =
    record {
      rule_id = "metric.cpu_usage.high";
      metric_name = "cpu_usage";
      threshold = 90;
      unit = "percent";
      severity = AnomalySeverity.critical;
      title = "High CPU usage";
    }
    ∷ record {
      rule_id = "metric.memory_usage.high";
      metric_name = "memory_usage";
      threshold = 90;
      unit = "percent";
      severity = AnomalySeverity.critical;
      title = "High memory usage";
    }
    ∷ record {
      rule_id = "metric.response_latency.high";
      metric_name = "response_latency";
      threshold = 500;
      unit = "milliseconds";
      severity = AnomalySeverity.warning;
      title = "High response latency";
    }
    ∷ record {
      rule_id = "metric.error_rate.high";
      metric_name = "error_rate";
      threshold = 5;
      unit = "percent";
      severity = AnomalySeverity.critical;
      title = "High error rate";
    }
    ∷ []

-- The enumerations' values.
abbrev pub level_value : LogLevel → String
level_value LogLevel.debug = "debug"
level_value LogLevel.info = "info"
level_value LogLevel.warning = "warning"
level_value LogLevel.error = "error"
level_value LogLevel.critical = "critical"

abbrev pub severity_value : EventSeverity → String
severity_value EventSeverity.info = "info"
severity_value EventSeverity.warning = "warning"
severity_value EventSeverity.error = "error"
severity_value EventSeverity.critical = "critical"

abbrev pub log_severity : LogLevel → Option AnomalySeverity
log_severity LogLevel.error = some AnomalySeverity.warning
log_severity LogLevel.critical = some AnomalySeverity.critical
log_severity LogLevel.debug = none
log_severity LogLevel.info = none
log_severity LogLevel.warning = none

abbrev pub event_severity : EventSeverity → Option AnomalySeverity
event_severity EventSeverity.error = some AnomalySeverity.warning
event_severity EventSeverity.critical = some AnomalySeverity.critical
event_severity EventSeverity.info = none
event_severity EventSeverity.warning = none

-- `description or name`: an empty text is false.
abbrev pub text_or : Option String → String → String
text_or none other = other
text_or (some s) other = if str_eq s "" then other else s

-- What the engine uses of floats and of `str.title`.
pub record Python : Type 0 where
  pub one : ℕ
  pub show : ℤ → String
  pub title : String → String

module _ (py : Python) where
  abbrev pub limit_of : MetricThresholdRule → ℤ
  limit_of rule = pos (rule.threshold * py.one)

  unfoldable pub is_over : String → ℤ → Option String → MetricThresholdRule → Bool
  is_over name value unit rule =
      str_eq name rule.metric_name && opt_str_eq unit rule.unit && not (ltb_ℤ value (limit_of rule))

  unfoldable pub metric_finding : TelemetryBase → String → ℤ → MetricThresholdRule → AnomalyFinding
  metric_finding b name value rule = record {
    rule_id = rule.rule_id;
    category = AnomalyCategory.metric_threshold;
    severity = rule.severity;
    title = rule.title;
    description =
        name
        +++ (" reached "
            +++ (py.show value
                +++ (" "
                    +++ (rule.unit
                        +++ ("; threshold is "
                            +++ (py.show (limit_of rule) +++ (" " +++ rule.unit)))))));
    service = b.service;
    environment = b.environment;
    source = b.source;
    observed_at = b.timestamp;
    observed_value = Value.number value;
    threshold = Value.number (limit_of rule);
  }

  unfoldable pub evaluate_metric :
      TelemetryBase → String → ℤ → Option String → List MetricThresholdRule → List AnomalyFinding
  evaluate_metric b name value unit [] = []
  evaluate_metric b name value unit (rule ∷ rules) =
      let rest = evaluate_metric b name value unit rules in
      if is_over name value unit rule then metric_finding b name value rule ∷ rest else rest

  unfoldable pub evaluate_log : TelemetryBase → LogLevel → String → List AnomalyFinding
  evaluate_log b level message = elim (log_severity level) [
    | none ↦ []
    | some severity ↦
        record {
          rule_id = "log.level." +++ level_value level;
          category = AnomalyCategory.log_severity;
          severity = severity;
          title = py.title (level_value level) +++ " log detected";
          description = message;
          service = b.service;
          environment = b.environment;
          source = b.source;
          observed_at = b.timestamp;
          observed_value = Value.text (level_value level);
          threshold = Value.text (level_value LogLevel.error);
        }
        ∷ []
  ]

  unfoldable pub evaluate_event :
      TelemetryBase → String → EventSeverity → Option String → List AnomalyFinding
  evaluate_event b name level description = elim (event_severity level) [
    | none ↦ []
    | some severity ↦
        record {
          rule_id = "event.severity." +++ severity_value level;
          category = AnomalyCategory.event_severity;
          severity = severity;
          title = py.title (severity_value level) +++ " event detected";
          description = text_or description name;
          service = b.service;
          environment = b.environment;
          source = b.source;
          observed_at = b.timestamp;
          observed_value = Value.text (severity_value level);
          threshold = Value.text (severity_value EventSeverity.error);
        }
        ∷ []
  ]

  unfoldable pub evaluate : TelemetryItem → List AnomalyFinding
  evaluate (TelemetryItem.metric b name value unit) = evaluate_metric b name value unit metric_rules
  evaluate (TelemetryItem.log b level message) = evaluate_log b level message
  evaluate (TelemetryItem.event b name severity description) =
      evaluate_event b name severity description
