-- ===== src/Observability/Detection/Rules.antt =====
-- Which items are found anomalous.
use software_engineering_car.Common.{
  ℕ, ◌*◌, ◌≤◌, ◌≡◌, refl, String, Bool, true, false, not, ◌&&◌, ◌||◌, Option, List, str_eq,
  opt_str_eq, if◌then◌else◌, length, arith, Bool-cases, inl, inr, eq_iff,
}
use software_engineering_car.Common.Int.{ℤ, pos, ltb_ℤ}
use software_engineering_car.Common.Table.{select_where}
use software_engineering_car.Observability.Model.{
  is_critical, TelemetryItem, LogLevel, EventSeverity, TelemetryBase,
}
use software_engineering_car.Observability.Detection.{
  AnomalyFinding, Python, evaluate, evaluate_metric, is_over, metric_finding, evaluate_log,
  evaluate_event, metric_rules,
}

-- The items that open an incident, from the platform's description of them.
abbrev pub at_least : Python → ℤ → ℕ → Bool
at_least py value units = not (ltb_ℤ value (pos (units * py.one)))

abbrev pub is_critical_item : Python → TelemetryItem → Bool
is_critical_item py (TelemetryItem.metric b name value unit) =
    opt_str_eq unit "percent"
    && ((str_eq name "cpu_usage" || str_eq name "memory_usage") && at_least py value 90
        || str_eq name "error_rate" && at_least py value 5)
is_critical_item py (TelemetryItem.log b LogLevel.critical message) = true
is_critical_item py (TelemetryItem.log b LogLevel.error message) = false
is_critical_item py (TelemetryItem.log b LogLevel.warning message) = false
is_critical_item py (TelemetryItem.log b LogLevel.info message) = false
is_critical_item py (TelemetryItem.log b LogLevel.debug message) = false
is_critical_item py (TelemetryItem.event b name EventSeverity.critical description) = true
is_critical_item py (TelemetryItem.event b name EventSeverity.error description) = false
is_critical_item py (TelemetryItem.event b name EventSeverity.warning description) = false
is_critical_item py (TelemetryItem.event b name EventSeverity.info description) = false

abbrev pub critical_findings : List AnomalyFinding → List AnomalyFinding
critical_findings = select_where (λ f. is_critical f.severity)

named : (s t : String) → str_eq s t ≡ true → s ≡ t
named s t e = (eq_iff s t).0 e

-- The rules have different names, so that at most one applies.
metric_findings :
    (py : Python) (b : TelemetryBase) (name : String) (value : ℤ) (unit : Option String)
    → (length (critical_findings (evaluate_metric py b name value unit metric_rules))
        ≡ (if is_critical_item py (TelemetryItem.metric b name value unit) then 1 else 0))
      × (length (evaluate_metric py b name value unit metric_rules) ≤ 1)
unfolding evaluate_metric is_over select_where metric_finding
metric_findings py b name value unit = elim (Bool-cases (str_eq name "cpu_usage")) [
  | inl e ↦ rw (named name "cpu_usage" e) (ground arith, ground arith)
  | inr e0 ↦ elim (Bool-cases (str_eq name "memory_usage")) [
    | inl e ↦ rw (named name "memory_usage" e) (ground arith, ground arith)
    | inr e1 ↦ elim (Bool-cases (str_eq name "response_latency")) [
      | inl e ↦ rw (named name "response_latency" e) (ground arith, ground arith)
      | inr e2 ↦ (ground (arith, e0, e1, e2), ground (arith, e0, e1, e2))
    ]
  ]
]

-- An item has at most one finding, and a critical one exactly when it is a usage of processor or
-- memory of at least 90 percent, an error rate of at least 5 percent, or a critical log or event.
pub evaluate_findings :
    (py : Python) (item : TelemetryItem)
    → (length (critical_findings (evaluate py item)) ≡ (if is_critical_item py item then 1 else 0))
      × (length (evaluate py item) ≤ 1)
unfolding evaluate evaluate_log evaluate_event select_where
evaluate_findings py (TelemetryItem.metric b name value unit) = metric_findings py b name value unit
evaluate_findings py (TelemetryItem.log b LogLevel.debug message) = (refl, omega arith)
evaluate_findings py (TelemetryItem.log b LogLevel.info message) = (refl, omega arith)
evaluate_findings py (TelemetryItem.log b LogLevel.warning message) = (refl, omega arith)
evaluate_findings py (TelemetryItem.log b LogLevel.error message) = (refl, omega arith)
evaluate_findings py (TelemetryItem.log b LogLevel.critical message) = (refl, omega arith)
evaluate_findings py (TelemetryItem.event b n EventSeverity.info d) = (refl, omega arith)
evaluate_findings py (TelemetryItem.event b n EventSeverity.warning d) = (refl, omega arith)
evaluate_findings py (TelemetryItem.event b n EventSeverity.error d) = (refl, omega arith)
evaluate_findings py (TelemetryItem.event b n EventSeverity.critical d) = (refl, omega arith)
