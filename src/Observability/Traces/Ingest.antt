-- ===== src/Observability/Traces/Ingest.antt =====
-- What the ingestion of a trace accepts.
use mathlib.Core.Path.{subst}
use software_engineering_car.Common.{
  ℕ, ◌≡◌, refl, sym, ◌⊎◌, String, true, List, [], ◌∷◌, ◌++◌, map, ◌==◌, length, All, Bool-cases,
  inl, inr, ==→eq,
}
use software_engineering_car.Common.Sorting.{order_by}
use software_engineering_car.Observability.Model.{TraceSpanRecord}
use software_engineering_car.Observability.Store.{
  Db, Result, ok, err, Result-cases, Commit, committed, integrity_error, failed,
}
use software_engineering_car.Observability.Registry.Resolve.{
  look_up_each, look_up_each_items, resolve_services_uncached,
}
use software_engineering_car.Observability.Traces.{
  contains_text, set_of, TraceSpanCreate, span_identity, span_batch, find_existing_span_ids, ingest,
  check_trace, str_leb, check_duplicates, check_existing, stored, TraceError, TraceIngestResponse,
}
use software_engineering_car.Observability.Traces.Batch.{UniqueSpans-batch, AreNew-batch, each_in}
use software_engineering_car.Observability.Traces.Spans.{
  IsDistinct, set_of-IsDistinct, set_of-one, UniqueSpans, AreNew, UniqueSpans-append,
}

-- The tables after the spans were accepted: their rows at the end of the old. The spans are of one
-- trace, with different ids, none of which is stored for it.
pub record Accepted (uuid now : ℕ) (spans : List TraceSpanCreate) (db db' : Db) : Type 0 where
  pub trace_id : String
  pub resolved : List (TraceSpanCreate × ℕ)
  pub of_trace : All (λ x. x ≡ trace_id) (map TraceSpanCreate.trace_id spans)
  pub distinct : IsDistinct (map TraceSpanCreate.span_id spans)
  pub absent : find_existing_span_ids trace_id (map TraceSpanCreate.span_id spans) db.spans ≡ []
  pub items : map (λ r. r.0) resolved ≡ spans
  pub looked_up : look_up_each span_identity db.services spans ≡ ok resolved
  pub after : db' ≡ record db { spans = db.spans ++ span_batch uuid now resolved }

abbrev pub Outcome :
    ℕ → ℕ → List TraceSpanCreate → Db → Result TraceError TraceIngestResponse × Db → Type 0
Outcome uuid now spans db x =
    ((r : TraceIngestResponse) × (db' : Db) × (x ≡ (ok r, db')) × Accepted uuid now spans db db')
    ⊎ ((e : TraceError) × (x ≡ (err e, db)))

stored-Outcome :
    (uuid now : ℕ) (c : Commit) (spans : List TraceSpanCreate) (db : Db) (t : String)
    (resolved : List (TraceSpanCreate × ℕ))
    → All (λ x. x ≡ t) (map TraceSpanCreate.trace_id spans)
    → IsDistinct (map TraceSpanCreate.span_id spans)
    → find_existing_span_ids t (map TraceSpanCreate.span_id spans) db.spans ≡ []
    → look_up_each span_identity db.services spans ≡ ok resolved
    → Outcome uuid now spans db (stored now db (span_batch uuid now resolved) c)
stored-Outcome uuid now committed spans db t resolved a d f h = inl (
  record {
    accepted_count = length (span_batch uuid now resolved);
    span_record_ids = map TraceSpanRecord.id (span_batch uuid now resolved);
    received_at = now;
  },
  record db { spans = db.spans ++ span_batch uuid now resolved },
  refl,
  record {
    trace_id = t;
    resolved = resolved;
    of_trace = a;
    distinct = d;
    absent = f;
    items = look_up_each_items span_identity db.services spans resolved h;
    looked_up = h;
    after = refl;
  },
)
stored-Outcome uuid now integrity_error spans db t resolved a d f h =
    inr (TraceError.storage_error, refl)
stored-Outcome uuid now failed spans db t resolved a d f h = inr (TraceError.storage_error, refl)

existing-Outcome :
    (uuid now : ℕ) (c : Commit) (spans : List TraceSpanCreate) (db : Db) (t : String)
    (ids : List String)
    → All (λ x. x ≡ t) (map TraceSpanCreate.trace_id spans)
    → IsDistinct (map TraceSpanCreate.span_id spans)
    → find_existing_span_ids t (map TraceSpanCreate.span_id spans) db.spans ≡ ids
    → Outcome uuid now spans db (check_existing uuid now c spans db t ids)
existing-Outcome uuid now c spans db t [] a d f =
    let e = resolve_services_uncached span_identity db.services spans in
    elim (Result-cases (look_up_each span_identity db.services spans)) [
      | inl (resolved, h) ↦ rw (e, h) (stored-Outcome uuid now c spans db t resolved a d f h)
      | inr (i, h) ↦ inr (TraceError.unregistered i, rw (e, h) refl)
    ]
existing-Outcome uuid now c spans db t (s ∷ ids) a d f =
    inr (TraceError.spans_exist t (order_by str_leb (s ∷ ids)), refl)

duplicates-Outcome :
    (uuid now : ℕ) (c : Commit) (spans : List TraceSpanCreate) (db : Db) (t : String)
    → All (λ x. x ≡ t) (map TraceSpanCreate.trace_id spans)
    → Outcome uuid now spans db (check_duplicates uuid now c spans db t)
duplicates-Outcome uuid now c spans db t a =
    let ids = map TraceSpanCreate.span_id spans in
    elim (Bool-cases (length ids == length (set_of ids))) [
      | inl e ↦
          let d = set_of-IsDistinct ids (==→eq (length ids) (length (set_of ids)) e) in
          rw e (
            existing-Outcome uuid now c spans db t (find_existing_span_ids t ids db.spans) a d refl)
      | inr e ↦ inr (TraceError.duplicate_spans t, rw e refl)
    ]

trace-Outcome :
    (uuid now : ℕ) (c : Commit) (spans : List TraceSpanCreate) (db : Db) (ts : List String)
    → set_of (map TraceSpanCreate.trace_id spans) ≡ ts
    → Outcome uuid now spans db (check_trace uuid now c spans db ts)
trace-Outcome uuid now c spans db [] h = inr (TraceError.mixed_trace, refl)
trace-Outcome uuid now c spans db (t ∷ []) h =
    duplicates-Outcome uuid now c spans db t (set_of-one t (map TraceSpanCreate.trace_id spans) h)
trace-Outcome uuid now c spans db (t ∷ u ∷ ts) h = inr (TraceError.mixed_trace, refl)

-- A batch of spans is accepted whole, or it is refused and nothing changes. It is accepted only
-- where its spans are of one trace, have different ids, none stored for that trace, and every
-- span's service is registered; its rows then stand after the old ones.
pub ingest_outcome :
    (uuid now : ℕ) (c : Commit) (spans : List TraceSpanCreate) (db : Db)
    → Outcome uuid now spans db (ingest uuid now c spans db)
unfolding ingest
ingest_outcome uuid now c spans db =
    trace-Outcome uuid now c spans db (set_of (map TraceSpanCreate.trace_id spans)) refl

taken-AreNew :
    (uuid now : ℕ) (spans : List TraceSpanCreate) (db db' : Db) (a : Accepted uuid now spans db db')
    → AreNew db.spans (span_batch uuid now a.resolved)
      × UniqueSpans (span_batch uuid now a.resolved)
taken-AreNew uuid now spans db db' a =
    let ids = map TraceSpanCreate.span_id spans in
    (
      AreNew-batch a.trace_id ids db.spans uuid now a.resolved a.absent
          (subst (λ ss. All (λ x. x ≡ a.trace_id) (map TraceSpanCreate.trace_id ss)) (sym a.items)
            a.of_trace)
          (subst (λ ss. All (λ s. contains_text s ids ≡ true) (map TraceSpanCreate.span_id ss))
            (sym a.items) (each_in ids)),
      UniqueSpans-batch uuid now a.resolved
          (subst (λ ss. IsDistinct (map TraceSpanCreate.span_id ss)) (sym a.items) a.distinct),
    )

-- An ingestion, accepted or not, that no other transaction comes between leaves no two rows of one
-- trace with the same span id, where there were none.
pub ingest-UniqueSpans :
    (uuid now : ℕ) (c : Commit) (spans : List TraceSpanCreate) (db : Db)
    → UniqueSpans db.spans
    → UniqueSpans (ingest uuid now c spans db).1.spans
ingest-UniqueSpans uuid now c spans db u = elim (ingest_outcome uuid now c spans db) [
  | inl (r, db', e, a) ↦
      let (new, unique) = taken-AreNew uuid now spans db db' a in
      rw (e, a.after) (UniqueSpans-append db.spans (span_batch uuid now a.resolved) u unique new)
  | inr (err', e) ↦ rw e u
]
