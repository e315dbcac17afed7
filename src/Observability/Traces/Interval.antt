-- ===== src/Observability/Traces/Interval.antt =====
-- The interval of a trace and its spans.
use mathlib.Core.Path.{subst}
use software_engineering_car.Common.{
  ℕ, ◌-◌, ◌≤◌, min, max, ◌≡◌, refl, String, List, [], ◌∷◌, some, length, arith, All,
}
use software_engineering_car.Observability.Model.{MonitoredService, TraceSpanRecord}
use software_engineering_car.Observability.Store.{Db}
use software_engineering_car.Observability.Traces.{
  TraceResponse, min_start, max_end, describe, response_of, get_rows, get_by_trace_id,
}

min_start-least :
    (t : ℕ) (rows : List (TraceSpanRecord × MonitoredService))
    → (min_start t rows ≤ t) × All (λ r. min_start t rows ≤ r.0.started_at) rows
unfolding min_start
min_start-least t [] = (omega arith, _)
min_start-least t (r ∷ rows) =
    let k = min_start-least (min t r.0.started_at) rows in
    (omega (arith, k.0), (omega (arith, k.0), k.1))

max_end-greatest :
    (t : ℕ) (rows : List (TraceSpanRecord × MonitoredService))
    → (t ≤ max_end t rows) × All (λ r. r.0.ended_at ≤ max_end t rows) rows
unfolding max_end
max_end-greatest t [] = (omega arith, _)
max_end-greatest t (r ∷ rows) =
    let k = max_end-greatest (max t r.0.ended_at) rows in
    (omega (arith, k.0), (omega (arith, k.0), k.1))

-- A span inside the interval, and no longer than it.
abbrev pub IsInside : TraceResponse → TraceSpanRecord × MonitoredService → Type 0
IsInside t r =
    (t.started_at ≤ r.0.started_at)
    × (r.0.ended_at ≤ t.ended_at)
    × (r.0.ended_at - r.0.started_at ≤ t.duration)

inside :
    (t : TraceResponse) (rows : List (TraceSpanRecord × MonitoredService))
    → t.duration ≡ t.ended_at - t.started_at
    → All (λ r. t.started_at ≤ r.0.started_at) rows
    → All (λ r. r.0.ended_at ≤ t.ended_at) rows
    → All (IsInside t) rows
inside t [] d a b = _
inside t (r ∷ rows) d a b = ((a.0, b.0, omega (arith, a.0, b.0, d)), inside t rows d a.1 b.1)

describe-IsInside :
    (trace_id : String) (r : TraceSpanRecord × MonitoredService)
    (rows : List (TraceSpanRecord × MonitoredService))
    → All (IsInside (describe trace_id r rows)) (r ∷ rows)
unfolding describe
describe-IsInside trace_id r rows =
    let lo = min_start-least r.0.started_at rows in
    let hi = max_end-greatest r.0.ended_at rows in
    inside (describe trace_id r rows) (r ∷ rows) refl lo hi

interval_of :
    (trace_id : String) (rows : List (TraceSpanRecord × MonitoredService)) (t : TraceResponse)
    → response_of trace_id rows ≡ some t
    → (t.spans ≡ rows) × (t.span_count ≡ length rows) × All (IsInside t) rows
unfolding describe
interval_of trace_id [] t h = absurd (ground (arith, h))
interval_of trace_id (r ∷ rows) t h =
    let e : describe trace_id r rows ≡ t = ground (arith, h) in
    subst
      (λ x. (x.spans ≡ r ∷ rows) × (x.span_count ≡ length (r ∷ rows)) × All (IsInside x) (r ∷ rows))
      e (refl, refl, describe-IsInside trace_id r rows)

-- A trace that is found has the stored spans of its id, as joined with their services; it begins no
-- later and ends no earlier than any of them, and none of them lasts longer than the trace.
pub get_by_trace_id_interval :
    (trace_id : String) (db : Db) (t : TraceResponse)
    → get_by_trace_id trace_id db ≡ some t
    → (t.spans ≡ get_rows trace_id db)
      × (t.span_count ≡ length (get_rows trace_id db))
      × All (IsInside t) (get_rows trace_id db)
unfolding get_by_trace_id
get_by_trace_id_interval trace_id db t h = interval_of trace_id (get_rows trace_id db) t h
