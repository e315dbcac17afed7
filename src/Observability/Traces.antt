-- ===== src/Observability/Traces.antt =====
-- `TraceIngestionService`, `TraceQueryService` and `TraceRepository` (observability-incident-
-- detection-platform/src/observability_platform/services/trace_ingestion_service.py,
-- services/trace_query_service.py, repositories/trace_repository.py). Durations are microseconds.
pub mod Spans
pub mod Batch
pub mod Ingest
pub mod Accept
pub mod Interval
use Prim.Native.String.{compare}
use text.Mathlib.Text.{is_le}
use software_engineering_car.Common.{
  ℕ, suc, ◌-◌, min, max, String, Bool, true, false, not, ◌&&◌, ◌||◌, Option, none, some, List, [],
  ◌∷◌, ◌++◌, map, ltb, leb, ◌==◌, str_eq, if◌then◌else◌, length,
}
use software_engineering_car.Common.Table.{select_where, row_at}
use software_engineering_car.Common.Sorting.{order_by}
use software_engineering_car.Observability.Model.{
  ServiceEnvironment, SpanStatus, Identity, MonitoredService, TraceSpanRecord,
}
use software_engineering_car.Observability.Store.{
  Db, Result, ok, err, Commit, committed, integrity_error, failed,
}
use software_engineering_car.Observability.Registry.{resolve_services}

pub record TraceSpanCreate : Type 0 where
  pub trace_id : String
  pub span_id : String
  pub parent_span_id : Option String
  pub service : String
  pub environment : ServiceEnvironment
  pub source : String
  pub operation : String
  pub status : SpanStatus
  pub started_at : ℕ
  pub ended_at : ℕ
  pub attributes : String

abbrev pub span_identity : TraceSpanCreate → Identity
span_identity s = (s.service, s.environment)

abbrev pub is_parent : String → Option String → Bool
is_parent s none = false
is_parent s (some t) = str_eq t s

-- The validator `validate_timing_and_identity`.
abbrev pub valid_span : TraceSpanCreate → Bool
valid_span s = not (ltb s.ended_at s.started_at) && not (is_parent s.span_id s.parent_span_id)

abbrev pub contains_text : String → List String → Bool
contains_text s [] = false
contains_text s (t ∷ ts) = str_eq t s || contains_text s ts

-- The elements of a set built from a list.
unfoldable pub set_of : List String → List String
set_of [] = []
set_of (s ∷ ss) = let rest = set_of ss in if contains_text s ss then rest else s ∷ rest

abbrev pub str_leb : String → String → Bool
str_leb a b = is_le (compare a b)

pub data TraceError : Type 0 where
  mixed_trace : TraceError
  duplicate_spans : (trace_id : String) → TraceError
  spans_exist : (trace_id : String) (span_ids : List String) → TraceError
  unregistered : Identity → TraceError
  storage_error : TraceError

pub record TraceIngestResponse : Type 0 where
  pub accepted_count : ℕ
  pub span_record_ids : List ℕ
  pub received_at : ℕ

unfoldable pub find_existing_span_ids : String → List String → List TraceSpanRecord → List String
find_existing_span_ids trace_id span_ids spans = set_of (
    map TraceSpanRecord.span_id
      (select_where (λ r. str_eq r.trace_id trace_id && contains_text r.span_id span_ids) spans))

unfoldable pub span_batch : ℕ → ℕ → List (TraceSpanCreate × ℕ) → List TraceSpanRecord
span_batch uuid now [] = []
span_batch uuid now ((s, service_id) ∷ spans) =
    record {
      id = uuid;
      service_id = service_id;
      trace_id = s.trace_id;
      span_id = s.span_id;
      parent_span_id = s.parent_span_id;
      source = s.source;
      operation = s.operation;
      status = s.status;
      started_at = s.started_at;
      ended_at = s.ended_at;
      duration = s.ended_at - s.started_at;
      attributes = s.attributes;
      received_at = now;
    }
    ∷ span_batch (suc uuid) now spans

abbrev pub stored :
    ℕ → Db → List TraceSpanRecord → Commit → Result TraceError TraceIngestResponse × Db
stored now db records committed = (
  ok (record {
    accepted_count = length records;
    span_record_ids = map TraceSpanRecord.id records;
    received_at = now;
  }),
  record db { spans = db.spans ++ records },
)
stored now db records integrity_error = (err TraceError.storage_error, db)
stored now db records failed = (err TraceError.storage_error, db)

abbrev pub store_spans :
    ℕ
    → ℕ
    → Commit
    → Db
    → Result Identity (List (TraceSpanCreate × ℕ))
    → Result TraceError TraceIngestResponse × Db
store_spans uuid now c db (err i) = (err (TraceError.unregistered i), db)
store_spans uuid now c db (ok resolved) = stored now db (span_batch uuid now resolved) c

-- The checks, in the code's order; the trace id is the one element of the set of trace ids.
abbrev pub check_existing :
    ℕ
    → ℕ
    → Commit
    → List TraceSpanCreate
    → Db
    → String
    → List String
    → Result TraceError TraceIngestResponse × Db
check_existing uuid now c spans db trace_id [] =
    store_spans uuid now c db (resolve_services span_identity db.services spans [])
check_existing uuid now c spans db trace_id (s ∷ ids) =
    (err (TraceError.spans_exist trace_id (order_by str_leb (s ∷ ids))), db)

abbrev pub check_duplicates :
    ℕ → ℕ → Commit → List TraceSpanCreate → Db → String → Result TraceError TraceIngestResponse × Db
check_duplicates uuid now c spans db trace_id =
    let span_ids = map TraceSpanCreate.span_id spans in
    if length span_ids == length (set_of span_ids)
    then check_existing uuid now c spans db trace_id
        (find_existing_span_ids trace_id span_ids db.spans)
    else (err (TraceError.duplicate_spans trace_id), db)

abbrev pub check_trace :
    ℕ
    → ℕ
    → Commit
    → List TraceSpanCreate
    → Db
    → List String
    → Result TraceError TraceIngestResponse × Db
check_trace uuid now c spans db [] = (err TraceError.mixed_trace, db)
check_trace uuid now c spans db (t ∷ []) = check_duplicates uuid now c spans db t
check_trace uuid now c spans db (t ∷ u ∷ ts) = (err TraceError.mixed_trace, db)

unfoldable pub ingest :
    ℕ → ℕ → Commit → List TraceSpanCreate → Db → Result TraceError TraceIngestResponse × Db
ingest uuid now c spans db =
    check_trace uuid now c spans db (set_of (map TraceSpanCreate.trace_id spans))

-- The rows of a trace with their services, ORDER BY started_at, span_id.
abbrev pub join_service :
    TraceSpanRecord
    → Option MonitoredService
    → List (TraceSpanRecord × MonitoredService)
    → List (TraceSpanRecord × MonitoredService)
join_service r none rows = rows
join_service r (some s) rows = (r, s) ∷ rows

unfoldable pub join_services :
    List MonitoredService → List TraceSpanRecord → List (TraceSpanRecord × MonitoredService)
join_services services [] = []
join_services services (r ∷ spans) =
    join_service r (row_at MonitoredService.id r.service_id services) (join_services services spans)

unfoldable pub by_start :
    TraceSpanRecord × MonitoredService → TraceSpanRecord × MonitoredService → Bool
by_start (a, s) (b, t) =
    if ltb a.started_at b.started_at
    then true
    else if ltb b.started_at a.started_at
    then false
    else str_leb a.span_id b.span_id

unfoldable pub get_rows : String → Db → List (TraceSpanRecord × MonitoredService)
get_rows trace_id db =
    order_by by_start
      (join_services db.services (select_where (λ r. str_eq r.trace_id trace_id) db.spans))

pub record TraceResponse : Type 0 where
  pub trace_id : String
  pub span_count : ℕ
  pub started_at : ℕ
  pub ended_at : ℕ
  pub duration : ℕ
  pub services : List String
  pub spans : List (TraceSpanRecord × MonitoredService)

unfoldable pub min_start : ℕ → List (TraceSpanRecord × MonitoredService) → ℕ
min_start t [] = t
min_start t (r ∷ rows) = min_start (min t r.0.started_at) rows

unfoldable pub max_end : ℕ → List (TraceSpanRecord × MonitoredService) → ℕ
max_end t [] = t
max_end t (r ∷ rows) = max_end (max t r.0.ended_at) rows

unfoldable pub describe :
    String
    → TraceSpanRecord × MonitoredService
    → List (TraceSpanRecord × MonitoredService)
    → TraceResponse
describe trace_id r rows =
    let started_at = min_start r.0.started_at rows in
    let ended_at = max_end r.0.ended_at rows in
    record {
      trace_id = trace_id;
      span_count = length (r ∷ rows);
      started_at = started_at;
      ended_at = ended_at;
      duration = ended_at - started_at;
      services = order_by str_leb (set_of (map (λ x. x.1.name) (r ∷ rows)));
      spans = r ∷ rows;
    }

-- None is TraceNotFoundError.
abbrev pub response_of : String → List (TraceSpanRecord × MonitoredService) → Option TraceResponse
response_of trace_id [] = none
response_of trace_id (r ∷ rows) = some (describe trace_id r rows)

unfoldable pub get_by_trace_id : String → Db → Option TraceResponse
get_by_trace_id trace_id db = response_of trace_id (get_rows trace_id db)
