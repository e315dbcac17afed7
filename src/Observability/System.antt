-- ===== src/Observability/System.antt =====
-- The services of observability-incident-detection-platform/src/observability_platform/services on
-- one database. An `Op` is one request's transaction, and a run is a sequence of them in any order.
pub mod Advance
pub mod Runs
use software_engineering_car.Common.{ℕ, String, List, [], ◌∷◌}
use software_engineering_car.Observability.Model.{TelemetryItem}
use software_engineering_car.Observability.Store.{Db, Commit}
use software_engineering_car.Observability.Detection.{Python}
use software_engineering_car.Observability.Registry.{ServiceCreate}
use software_engineering_car.Observability.Registry as Registry
use software_engineering_car.Observability.Telemetry as Telemetry
use software_engineering_car.Observability.Traces.{TraceSpanCreate}
use software_engineering_car.Observability.Traces as Traces
use software_engineering_car.Observability.Incidents as Incidents
use software_engineering_car.Observability.Correlation.{CorrelationAnalyzeRequest}
use software_engineering_car.Observability.Correlation as Correlation

pub data Op : Type 0 where
  register : (uuid : ℕ) (c : Commit) (d : ServiceCreate) → Op
  ingest_telemetry : (uuid now : ℕ) (c : Commit) (items : List TelemetryItem) → Op
  ingest_trace : (uuid now : ℕ) (c : Commit) (spans : List TraceSpanCreate) → Op
  acknowledge : (incident_id now : ℕ) (c : Commit) (by : String) → Op
  resolve : (incident_id now : ℕ) (c : Commit) (by summary : String) → Op
  correlate : (uuid ended_at created_at : ℕ) (c : Commit) (q : CorrelationAnalyzeRequest) → Op

unfoldable pub apply : Python → Op → Db → Db
apply py (Op.register uuid c d) db = (Registry.register uuid c d db).1
apply py (Op.ingest_telemetry uuid now c items) db = (Telemetry.ingest py uuid now c items db).1
apply py (Op.ingest_trace uuid now c spans) db = (Traces.ingest uuid now c spans db).1
apply py (Op.acknowledge incident_id now c by) db =
    (Incidents.acknowledge incident_id now c by db).1
apply py (Op.resolve incident_id now c by summary) db =
    (Incidents.resolve incident_id now c by summary db).1
apply py (Op.correlate uuid ended_at created_at c q) db =
    (Correlation.analyze uuid ended_at created_at c q db).1

unfoldable pub run : Python → List Op → Db → Db
run py [] db = db
run py (op ∷ ops) db = run py ops (apply py op db)
