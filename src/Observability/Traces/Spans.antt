-- ===== src/Observability/Traces/Spans.antt =====
-- Sets of texts and the identity of spans.
use software_engineering_car.Common.{
  ◌≤◌, ◌≡◌, refl, sym, ◌∙◌, ap, String, Bool, true, false, ◌&&◌, ◌||◌, List, [], ◌∷◌, ◌++◌, str_eq,
  if◌then◌else◌, length, arith, All, Bool-cases, inl, inr, eq_iff,
}
use software_engineering_car.Observability.Model.{TraceSpanRecord}
use software_engineering_car.Observability.Traces.{contains_text, set_of}

abbrev pub IsDistinct : List String → Type 0
IsDistinct [] = Unit
IsDistinct (s ∷ ss) = (contains_text s ss ≡ false) × IsDistinct ss

length-set_of : (ss : List String) → length (set_of ss) ≤ length ss
unfolding set_of
length-set_of [] = omega arith
length-set_of (s ∷ ss) = ground (arith, length-set_of ss)

pub set_of-IsDistinct : (ss : List String) → length ss ≡ length (set_of ss) → IsDistinct ss
unfolding set_of
set_of-IsDistinct [] h = _
set_of-IsDistinct (s ∷ ss) h = elim (Bool-cases (contains_text s ss)) [
  | inl e ↦ absurd (ground (arith, e, h, length-set_of ss))
  | inr e ↦ (e, set_of-IsDistinct ss (ground (arith, e, h)))
]

-- A set of one element is built from copies of it.
contains_each :
    (s t : String) (ss : List String) → contains_text s ss ≡ true → All (λ x. x ≡ t) ss → s ≡ t
contains_each s t [] h k = absurd (ground (arith, h))
contains_each s t (u ∷ ss) h k = elim (Bool-cases (str_eq u s)) [
  | inl e ↦ sym ((eq_iff u s).0 e) ∙ k.0
  | inr e ↦ contains_each s t ss (ground (arith, h, e)) k.1
]

pub set_of-nil : (ss : List String) → set_of ss ≡ [] → ss ≡ []
unfolding set_of
set_of-nil [] h = refl
set_of-nil (s ∷ ss) h = elim (Bool-cases (contains_text s ss)) [
  | inl e ↦
      let n = set_of-nil ss (ground (arith, e, h)) in
      absurd (ground (arith, ap (contains_text s) n, e))
  | inr e ↦ absurd (ground (arith, e, h))
]

pub set_of-one : (t : String) (ss : List String) → set_of ss ≡ t ∷ [] → All (λ x. x ≡ t) ss
unfolding set_of
set_of-one t [] h = _
set_of-one t (s ∷ ss) h = elim (Bool-cases (contains_text s ss)) [
  | inl e ↦ let k = set_of-one t ss (ground (arith, e, h)) in (contains_each s t ss e k, k)
  | inr e ↦
      let n = set_of-nil ss (ground (arith, e, h)) in
      let p : s ≡ t = ground (arith, e, h) in (p, rw n _)
]

-- The unique constraint on trace and span id.
unfoldable pub has_span : String → String → List TraceSpanRecord → Bool
has_span trace_id span_id [] = false
has_span trace_id span_id (r ∷ spans) =
    if str_eq r.trace_id trace_id && str_eq r.span_id span_id
    then true
    else has_span trace_id span_id spans

abbrev pub UniqueSpans : List TraceSpanRecord → Type 0
UniqueSpans [] = Unit
UniqueSpans (r ∷ spans) = (has_span r.trace_id r.span_id spans ≡ false) × UniqueSpans spans

pub has_span-append :
    (t s : String) (xs ys : List TraceSpanRecord)
    → has_span t s (xs ++ ys) ≡ (has_span t s xs || has_span t s ys)
unfolding has_span
has_span-append t s [] ys = refl
has_span-append t s (x ∷ xs) ys = ground (arith, has_span-append t s xs ys)

same_span :
    (r x : TraceSpanRecord)
    → (str_eq x.trace_id r.trace_id && str_eq x.span_id r.span_id)
      ≡ (str_eq r.trace_id x.trace_id && str_eq r.span_id x.span_id)
same_span r x = ground (
  arith,
  eq_iff x.trace_id r.trace_id,
  eq_iff r.trace_id x.trace_id,
  eq_iff x.span_id r.span_id,
  eq_iff r.span_id x.span_id,
)

-- No row of the second list is in the first.
abbrev pub AreNew : List TraceSpanRecord → List TraceSpanRecord → Type 0
AreNew old = All (λ r. has_span r.trace_id r.span_id old ≡ false)

AreNew-tail :
    (x : TraceSpanRecord) (old new : List TraceSpanRecord) → AreNew (x ∷ old) new → AreNew old new
unfolding has_span
AreNew-tail x old [] k = _
AreNew-tail x old (r ∷ new) k = (ground (arith, k.0), AreNew-tail x old new k.1)

AreNew-head :
    (x : TraceSpanRecord) (old new : List TraceSpanRecord)
    → AreNew (x ∷ old) new
    → has_span x.trace_id x.span_id new ≡ false
unfolding has_span
AreNew-head x old [] k = refl
AreNew-head x old (r ∷ new) k = ground (arith, k.0, same_span r x, AreNew-head x old new k.1)

pub UniqueSpans-append :
    (old new : List TraceSpanRecord)
    → UniqueSpans old
    → UniqueSpans new
    → AreNew old new
    → UniqueSpans (old ++ new)
UniqueSpans-append [] new u v k = v
UniqueSpans-append (x ∷ old) new u v k = (
  has_span-append x.trace_id x.span_id old new ∙ rw (u.0, AreNew-head x old new k) refl,
  UniqueSpans-append old new u.1 v (AreNew-tail x old new k),
)
