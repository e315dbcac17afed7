-- ===== src/Observability/Tests.antt =====
-- Runs at concrete inputs: the rate limiter, the analysis of signals and items, one ingestion.
mod Tables
use software_engineering_car.Common.{
  ℕ, ◌+◌, ◌*◌, ◌≤◌, ◌<◌, ◌≡◌, refl, String, Bool, true, ◌||◌, Option, none, some, List, [], ◌∷◌,
  ◌++◌, map, length, arith, str_eq, if◌then◌else◌,
}
use software_engineering_car.Common.Int.{pos}
use software_engineering_car.Common.Table.{row_at, select_where, UniqueKeys, has_key}
use software_engineering_car.Observability.Model.{
  ServiceEnvironment, AnomalyCategory, AnomalySeverity, IncidentStatus, SpanStatus,
  MonitoredService, TelemetryBase, TelemetryItem, LogLevel, EventSeverity, IncidentRecord,
  CorrelationIncidentRecord, TraceSpanRecord, item_identity, AnomalyRecord, TelemetryRecord,
}
use software_engineering_car.Observability.Store.{Db, Result, ok, err, committed}
use software_engineering_car.Observability.RateLimit.{
  Policy, Request, App, Times, no_requests, rejected, admit, is_accepted, dispatch, is_exempt,
  client_key, admit_one, evict, seconds_left,
}
use software_engineering_car.Observability.RateLimit.Refine.{
  Event, run, spec_run, run_refines, has_room, Refines, no_requests-Refines,
}
use software_engineering_car.Observability.RateLimit.Bound.{accepted_within, accepted_bounded}
use software_engineering_car.Observability.RateLimit.Retry.{retry_after_suffices}
use software_engineering_car.Observability.RateLimit.Guard.{dispatch_guards}
use software_engineering_car.Observability.RootCause.{
  CorrelationSignal, RootCauseCandidate, score_in,
}
use software_engineering_car.Observability.Detection.{Python, evaluate}
use software_engineering_car.Observability.Detection.Rules.{
  critical_findings, is_critical_item, evaluate_findings,
}
use software_engineering_car.Observability.Registry.{resolve_services, get_by_identity}
use software_engineering_car.Observability.Registry.Resolve.{
  look_up_each, resolve_services_uncached,
}
use software_engineering_car.Observability.Telemetry.{TelemetryIngestResponse}
use software_engineering_car.Observability.Telemetry as Telemetry
use software_engineering_car.Observability.Telemetry.Ingest.{Stores, ingest-Stores}

-- Three requests of one client in a window of ten seconds that admits two, and one of another.
abbrev requests : List Event
requests = ("10.0.0.1", 0) ∷ ("10.0.0.1", 5) ∷ ("10.0.0.2", 6) ∷ ("10.0.0.1", 9) ∷ []

run_refines_example : (run 1 2 10 requests no_requests []).1 ≡ spec_run 2 10 requests []
run_refines_example = run_refines 1 2 10 requests (omega arith) (omega arith)

accepted_bounded_example :
    accepted_within 10 9 "10.0.0.1" (run 1 2 10 requests no_requests []).1 ≤ 2
accepted_bounded_example = accepted_bounded 1 2 10 requests "10.0.0.1" 9 (omega arith) (omega arith)

third_rejected : (admit 1 2 10 "10.0.0.1" 9 (run 1 2 10 requests no_requests []).0).0 ≡ rejected 1
unfolding admit run admit_one evict seconds_left
third_rejected = refl

retry_after_suffices_example :
    is_accepted
      (admit 1 2 10 "10.0.0.1" 10
        (run 1 2 10
          (("10.0.0.2", 9) ∷ [])
          (admit 1 2 10 "10.0.0.1" 9 (run 1 2 10 requests no_requests []).0).1
          []).0).0
    ≡ true
retry_after_suffices_example =
    retry_after_suffices 1 2 10 requests (("10.0.0.2", 9) ∷ []) "10.0.0.1" 9 1 10 (omega arith)
      (omega arith) third_rejected (refl, _) (omega arith)

-- An application that counts its requests.
abbrev counter : App ℕ ℕ
counter = record {
  call_next = λ r w. (200, 1 + w);
  json_response = λ status detail headers. status;
  setdefault = λ name value r. r;
  str = λ n. "";
}

abbrev policy : Policy
policy = record { enabled = true; request_limit = 2; window_seconds = 10 }

abbrev listing : Request
listing = record { path = "/services"; client = some "10.0.0.1" }

abbrev signal : ℕ → ℕ → CorrelationSignal
signal id observed_at = record {
  anomaly_id = id;
  incident_id = id;
  rule_id = "metric.cpu_usage.high";
  category = AnomalyCategory.metric_threshold;
  severity = AnomalySeverity.critical;
  source = "host-1";
  observed_at = observed_at;
}

abbrev signals : List CorrelationSignal
signals = signal 4 20 ∷ signal 5 10 ∷ []

abbrev second_cause : RootCauseCandidate
second_cause = score_in signals 10 (signal 5 10)

abbrev python : Python
python = record { one = 10; show = λ v. "95.0"; title = λ s. s }

abbrev base : TelemetryBase
base = record {
  service = "api";
  environment = ServiceEnvironment.production;
  source = "host-1";
  timestamp = 100;
  attributes = "{}";
}

abbrev hot : TelemetryItem
hot = TelemetryItem.metric base "cpu_usage" (pos 950) (some "percent")

abbrev chatter : TelemetryItem
chatter = TelemetryItem.log base LogLevel.info "started"

evaluate_findings_example :
    (length (critical_findings (evaluate python hot)) ≡ 1) × (length (evaluate python hot) ≤ 1)
evaluate_findings_example = evaluate_findings python hot

abbrev api : MonitoredService
api = record {
  id = 1;
  name = "api";
  environment = ServiceEnvironment.production;
  description = none;
}

abbrev registered : Db
registered = record {
  services = api ∷ [];
  telemetry = [];
  anomalies = [];
  incidents = [];
  spans = [];
  correlations = [];
  links = [];
}

abbrev batch : List TelemetryItem
batch = hot ∷ chatter ∷ hot ∷ []

resolve_services_uncached_example :
    resolve_services item_identity (api ∷ []) batch [] ≡ look_up_each item_identity (api ∷ []) batch
resolve_services_uncached_example = resolve_services_uncached item_identity (api ∷ []) batch

all_registered :
    look_up_each item_identity (api ∷ []) batch ≡ ok ((hot, 1) ∷ (chatter, 1) ∷ (hot, 1) ∷ [])
unfolding look_up_each get_by_identity select_where
all_registered = refl

ingest-Stores_example :
    (r : TelemetryIngestResponse) × (db : Db) × (Telemetry.ingest python 10 200 committed batch
        registered
      ≡ (ok r, db))
    × Stores python batch registered db r
ingest-Stores_example =
    ingest-Stores python 10 200 batch registered ((hot, 1) ∷ (chatter, 1) ∷ (hot, 1) ∷ [])
      all_registered
