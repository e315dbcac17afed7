-- ===== src/Observability/Tests/Tables.antt =====
-- Runs at concrete inputs: traces, correlations and sequences of operations.
use software_engineering_car.Common.{ℕ, ◌≡◌, refl, String, none, some, List, [], ◌∷◌, length, arith}
use software_engineering_car.Common.Sorting.{order_by, insert_row}
use software_engineering_car.Common.Table.{row_at, select_where, UniqueKeys, has_key}
use software_engineering_car.Observability.Model.{
  ServiceEnvironment, IncidentStatus, SpanStatus, IncidentRecord, CorrelationIncidentRecord,
  TelemetryRecord, AnomalyRecord, AnomalyCategory, AnomalySeverity, Value,
}
use software_engineering_car.Observability.Store.{Db, ok, err, committed}
use software_engineering_car.Observability.Traces.{TraceSpanCreate}
use software_engineering_car.Observability.Traces as Traces
use software_engineering_car.Observability.Traces.Spans.{UniqueSpans}
use software_engineering_car.Observability.Traces.Ingest.{ingest-UniqueSpans}
use software_engineering_car.Observability.Correlation.{
  CorrelationAnalyzeRequest, CorrelationError, CorrelationResponse, analyze,
  find_uncorrelated_incidents, join_rows, is_uncorrelated, by_creation,
}
use software_engineering_car.Observability.Correlation.Analysis.{
  analyze-UniqueKeys, analyze_twice, analyze_correlates, Correlated, found,
}
use software_engineering_car.Observability.Incidents.Transitions.{Steps}
use software_engineering_car.Observability.System.{Op, run}
use software_engineering_car.Observability.System.Advance.{IsConsistent}
use software_engineering_car.Observability.System.Runs.{run-IsConsistent, run-Steps}
use software_engineering_car.Observability.Incidents.{get_by_id, acknowledge_read, resolve}
use software_engineering_car.Observability.Incidents.Race.{acknowledge-resolve_overwrites}
use software_engineering_car.Observability.Tests.{registered, api, python, batch, hot}

abbrev span : String → TraceSpanCreate
span id = record {
  trace_id = "4bf92f3577b34da6a3ce929d0e0e4736";
  span_id = id;
  parent_span_id = none;
  service = "api";
  environment = ServiceEnvironment.production;
  source = "host-1";
  operation = "GET /orders";
  status = SpanStatus.ok;
  started_at = 100;
  ended_at = 130;
  attributes = "{}";
}

abbrev spans : List TraceSpanCreate
spans = span "00f067aa0ba902b7" ∷ span "00f067aa0ba902b8" ∷ []

abbrev resolved_spans : List (TraceSpanCreate × ℕ)
resolved_spans = (span "00f067aa0ba902b7", 1) ∷ (span "00f067aa0ba902b8", 1) ∷ []

ingest-UniqueSpans_example : UniqueSpans (Traces.ingest 30 300 committed spans registered).1.spans
ingest-UniqueSpans_example = ingest-UniqueSpans 30 300 committed spans registered _

-- Three items, two of them critical; then one incident is acknowledged and resolved.
abbrev operations : List Op
operations =
    Op.ingest_telemetry 10 200 committed batch
    ∷ Op.ingest_trace 30 300 committed spans
    ∷ Op.acknowledge 15 400 committed "ops"
    ∷ Op.resolve 15 500 committed "ops" "restarted"
    ∷ []

registered-IsConsistent : IsConsistent registered
unfolding select_where
registered-IsConsistent = record { triggers = refl; unique_spans = _ }

run-IsConsistent_example : IsConsistent (run python operations registered)
run-IsConsistent_example = run-IsConsistent python operations registered registered-IsConsistent

-- Two open incidents of the service.
abbrev observation : ℕ → TelemetryRecord
observation id = record {
  id = id;
  service_id = 1;
  telemetry_type = "metric";
  source = "host-1";
  observed_at = 100;
  received_at = 200;
  payload = hot;
}

abbrev anomaly : ℕ → ℕ → AnomalyRecord
anomaly id telemetry_id = record {
  id = id;
  telemetry_id = telemetry_id;
  rule_id = "metric.cpu_usage.high";
  category = AnomalyCategory.metric_threshold;
  severity = AnomalySeverity.critical;
  title = "High CPU usage";
  description = "";
  observed_value = Value.text "";
  threshold = Value.text "";
  detected_at = 200;
}

abbrev incident : ℕ → ℕ → IncidentRecord
incident id anomaly_id = record {
  id = id;
  service_id = 1;
  trigger_anomaly_id = anomaly_id;
  status = IncidentStatus.opened;
  severity = AnomalySeverity.critical;
  title = "Incident: High CPU usage";
  description = "";
  created_at = 200;
  acknowledged_at = none;
  acknowledged_by = none;
  resolved_at = none;
  resolved_by = none;
  resolution_summary = none;
}

abbrev alarmed : Db
alarmed = record registered {
  telemetry = observation 10 ∷ observation 11 ∷ [];
  anomalies = anomaly 13 10 ∷ anomaly 14 11 ∷ [];
  incidents = incident 15 13 ∷ incident 16 14 ∷ [];
}

first_incident : row_at IncidentRecord.id 15 alarmed.incidents ≡ some (incident 15 13)
unfolding row_at
first_incident = refl

run-Steps_example :
    (j : IncidentRecord) × (row_at IncidentRecord.id 15 (run python operations alarmed).incidents
      ≡ some j)
    × Steps (incident 15 13) j
run-Steps_example = run-Steps python operations alarmed 15 (incident 15 13) first_incident

abbrev request : CorrelationAnalyzeRequest
request = record {
  service = "api";
  environment = ServiceEnvironment.production;
  window_minutes = 15;
  minimum_incidents = 2;
}

two_found : length (found request 300 alarmed) ≡ 2
unfolding find_uncorrelated_incidents join_rows is_uncorrelated row_at has_key select_where
    by_creation order_by insert_row
two_found = refl

abbrev correlated :
    (r : CorrelationResponse) × (db : Db) × (analyze 20 300 310 committed request alarmed
      ≡ (ok r, db))
    × Correlated 300 310 request alarmed db r
correlated = analyze_correlates 20 300 310 request alarmed (omega arith) (omega (arith, two_found))

analyze_twice_example :
    analyze 21 300 320 committed request correlated.1
    ≡ (err (CorrelationError.insufficient 0), correlated.1)
analyze_twice_example =
    analyze_twice 20 21 300 310 320 committed committed request alarmed correlated.1 correlated.0
      (omega arith) correlated.2

unique_incidents : UniqueKeys IncidentRecord.id alarmed.incidents
unfolding has_key
unique_incidents = (refl, (refl, _))

analyze-UniqueKeys_example :
    UniqueKeys CorrelationIncidentRecord.incident_id
      (analyze 20 300 310 committed request alarmed).1.links
analyze-UniqueKeys_example =
    analyze-UniqueKeys 20 300 310 committed request alarmed unique_incidents tt

alarm_found : get_by_id 15 alarmed ≡ some (incident 15 13, api)
unfolding get_by_id row_at
alarm_found = refl

acknowledge-resolve_overwrites_example :
    row_at IncidentRecord.id 15
      (acknowledge_read alarmed 15 410 committed "ann"
        (resolve 15 400 committed "ops" "restarted" alarmed).1).1.incidents
    ≡ some (record (incident 15 13) {
      status = IncidentStatus.acknowledged;
      acknowledged_at = some 410;
      acknowledged_by = some "ann";
      resolved_at = some 400;
      resolved_by = some "ops";
      resolution_summary = some "restarted";
    })
acknowledge-resolve_overwrites_example =
    acknowledge-resolve_overwrites 15 400 410 "ops" "ann" "restarted" alarmed (incident 15 13) api
      alarm_found refl
