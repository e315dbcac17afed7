-- ===== src/Observability/Traces/Batch.antt =====
-- The rows of one batch of spans against the rows that are stored.
use mathlib.Core.Path.{subst}
use software_engineering_car.Common.{
  ℕ, suc, ◌≡◌, refl, sym, ◌∙◌, ap, String, true, false, ◌&&◌, List, [], ◌∷◌, map, str_eq, arith,
  All, Bool-cases, inl, inr, eq_iff,
}
use software_engineering_car.Common.Table.{select_where}
use software_engineering_car.Observability.Model.{TraceSpanRecord}
use software_engineering_car.Observability.Traces.{
  contains_text, TraceSpanCreate, span_batch, find_existing_span_ids,
}
use software_engineering_car.Observability.Traces.Spans.{
  IsDistinct, set_of-nil, has_span, UniqueSpans, AreNew,
}

has_span-batch :
    (t s : String) (uuid now : ℕ) (resolved : List (TraceSpanCreate × ℕ))
    → contains_text s (map TraceSpanCreate.span_id (map (λ r. r.0) resolved)) ≡ false
    → has_span t s (span_batch uuid now resolved) ≡ false
unfolding has_span span_batch
has_span-batch t s uuid now [] h = refl
has_span-batch t s uuid now ((x, k) ∷ resolved) h =
    ground (arith, h, has_span-batch t s (suc uuid) now resolved)

pub UniqueSpans-batch :
    (uuid now : ℕ) (resolved : List (TraceSpanCreate × ℕ))
    → IsDistinct (map TraceSpanCreate.span_id (map (λ r. r.0) resolved))
    → UniqueSpans (span_batch uuid now resolved)
unfolding span_batch
UniqueSpans-batch uuid now [] d = _
UniqueSpans-batch uuid now ((x, k) ∷ resolved) d = (
  has_span-batch x.trace_id x.span_id (suc uuid) now resolved d.0,
  UniqueSpans-batch (suc uuid) now resolved d.1,
)

-- Where no stored span id of the trace is requested, none of the requested is stored.
none_exist :
    (t s : String) (ids : List String) (old : List TraceSpanRecord)
    → contains_text s ids ≡ true
    → select_where (λ r. str_eq r.trace_id t && contains_text r.span_id ids) old ≡ []
    → has_span t s old ≡ false
unfolding select_where has_span
none_exist t s ids [] c h = refl
none_exist t s ids (r ∷ old) c h =
    elim (Bool-cases (str_eq r.trace_id t && contains_text r.span_id ids)) [
      | inl e ↦ absurd (ground (arith, e, h))
      | inr e ↦
          let same = ap (λ x. contains_text x ids) in
          elim (Bool-cases (str_eq r.span_id s)) [
            | inl f ↦
                let p : r.span_id ≡ s = (eq_iff r.span_id s).0 f in
                let q : contains_text r.span_id ids ≡ true = same p ∙ c in
                ground (arith, e, f, q, none_exist t s ids old c, h)
            | inr f ↦ ground (arith, e, f, none_exist t s ids old c, h)
          ]
    ]

contains_self :
    (ids more : List String)
    → All (λ s. contains_text s ids ≡ true) more
    → (t : String) → All (λ s. contains_text s (t ∷ ids) ≡ true) more
contains_self ids [] k t = _
contains_self ids (s ∷ more) k t = (ground (arith, k.0), contains_self ids more k.1 t)

pub each_in : (ids : List String) → All (λ s. contains_text s ids ≡ true) ids
each_in [] = _
each_in (s ∷ ids) = (ground (arith, eq_iff s s), contains_self ids ids (each_in ids) s)

map-nil : {A B : Type 0} (f : A → B) (xs : List A) → map f xs ≡ [] → xs ≡ []
map-nil f [] h = refl
map-nil f (x ∷ xs) h = absurd (ground (arith, h))

pub AreNew-batch :
    (t : String) (ids : List String) (old : List TraceSpanRecord) (uuid now : ℕ)
    (resolved : List (TraceSpanCreate × ℕ))
    → find_existing_span_ids t ids old ≡ []
    → All (λ x. x ≡ t) (map TraceSpanCreate.trace_id (map (λ r. r.0) resolved))
    → All (λ s. contains_text s ids ≡ true) (map TraceSpanCreate.span_id (map (λ r. r.0) resolved))
    → AreNew old (span_batch uuid now resolved)
unfolding find_existing_span_ids span_batch
AreNew-batch t ids old uuid now [] h a c = _
AreNew-batch t ids old uuid now ((x, k) ∷ resolved) h a c =
    let p = λ (r : TraceSpanRecord). str_eq r.trace_id t && contains_text r.span_id ids in
    let e =
      map-nil TraceSpanRecord.span_id (select_where p old)
        (set_of-nil (map TraceSpanRecord.span_id (select_where p old)) h) in
    (
      subst (λ u. has_span u x.span_id old ≡ false) (sym a.0)
          (none_exist t x.span_id ids old c.0 e),
      AreNew-batch t ids old (suc uuid) now resolved h a.1 c.1,
    )
