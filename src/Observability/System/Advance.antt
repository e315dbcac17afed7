-- ===== src/Observability/System/Advance.antt =====
-- What each operation does to the incidents and to the consistency of the tables.
use mathlib.Core.Path.{subst}
use software_engineering_car.Common.{
  ℕ, ◌≡◌, refl, sym, ◌∙◌, ap, Bool, some, List, [], ◌∷◌, ◌++◌, map, ◌==◌, arith, inl, inr,
  Option-cases,
}
use software_engineering_car.Common.Table.{select_where, update_where, row_at}
use software_engineering_car.Observability.Model.{IncidentRecord, AnomalyRecord, TelemetryItem}
use software_engineering_car.Observability.Store.{Db, Result, Commit, Commit-cases}
use software_engineering_car.Observability.Detection.{Python}
use software_engineering_car.Observability.Registry.{ServiceCreate, register, get_by_identity}
use software_engineering_car.Observability.Telemetry as Telemetry
use software_engineering_car.Observability.Telemetry.Batches.{is_critical_anomaly}
use software_engineering_car.Observability.Telemetry.Ingest.{ingest_atomic}
use software_engineering_car.Common.Append.{select_where-append}
use software_engineering_car.Observability.Traces.{TraceSpanCreate}
use software_engineering_car.Observability.Traces as Traces
use software_engineering_car.Observability.Traces.Spans.{UniqueSpans}
use software_engineering_car.Observability.Traces.Ingest.{
  Outcome, ingest_outcome, ingest-UniqueSpans,
}
use software_engineering_car.Observability.Incidents.{IncidentResponse, IncidentError}
use software_engineering_car.Observability.Incidents.Transitions.{
  Moves, Follows, Follows-refl, Follows-trans, update-Follows, stay,
}
use software_engineering_car.Observability.Correlation.{CorrelationAnalyzeRequest, analyze}
use software_engineering_car.Observability.Correlation.Analysis.{analyze_outcome}

-- The incidents are those of the critical anomalies, one for each and in their order, and no two
-- spans of a trace have the same id.
pub record IsConsistent (db : Db) : Type 0 where
  pub triggers :
      map IncidentRecord.trigger_anomaly_id db.incidents
      ≡ map AnomalyRecord.id (select_where is_critical_anomaly db.anomalies)
  pub unique_spans : UniqueSpans db.spans

pub record Advances (old new : Db) : Type 0 where
  pub follows : Follows old.incidents new.incidents
  pub keeps : IsConsistent old → IsConsistent new

pub Advances-refl : (db : Db) → Advances db db
Advances-refl db = record { follows = Follows-refl db.incidents; keeps = λ c. c }

pub Advances-trans : (a b c : Db) → Advances a b → Advances b c → Advances a c
Advances-trans a b c f g = record {
  follows = Follows-trans a.incidents b.incidents c.incidents f.follows g.follows;
  keeps = λ x. g.keeps (f.keeps x);
}

row_at-append :
    (k : ℕ) (i : IncidentRecord) (rows more : List IncidentRecord)
    → row_at IncidentRecord.id k rows ≡ some i
    → row_at IncidentRecord.id k (rows ++ more) ≡ some i
unfolding row_at
row_at-append k i [] more h = absurd (ground (arith, h))
row_at-append k i (r ∷ rows) more h = ground (arith, h, row_at-append k i rows more)

append-Follows : (old more : List IncidentRecord) → Follows old (old ++ more)
append-Follows old more k i h = (i, row_at-append k i old more h, stay)

map-append : {A B : Type 0} (f : A → B) (xs ys : List A) → map f (xs ++ ys) ≡ map f xs ++ map f ys
map-append f [] ys = refl
map-append f (x ∷ xs) ys = ap (λ l. f x ∷ l) (map-append f xs ys)

triggers-update :
    (p : IncidentRecord → Bool) (f : IncidentRecord → IncidentRecord) (rows : List IncidentRecord)
    → ((x : IncidentRecord) → (f x).trigger_anomaly_id ≡ x.trigger_anomaly_id)
    → map IncidentRecord.trigger_anomaly_id (update_where p f rows)
      ≡ map IncidentRecord.trigger_anomaly_id rows
unfolding update_where
triggers-update p f [] h = refl
triggers-update p f (r ∷ rows) h = ground (arith, h r, triggers-update p f rows h)

same-Advances :
    (old new : Db)
    → new.incidents ≡ old.incidents
    → new.anomalies ≡ old.anomalies
    → (UniqueSpans old.spans → UniqueSpans new.spans)
    → Advances old new
same-Advances old new i a s = record {
  follows = rw i (Follows-refl old.incidents);
  keeps = λ c. record { triggers = rw (i, a) c.triggers; unique_spans = s c.unique_spans };
}

pub register-Advances :
    (uuid : ℕ) (c : Commit) (d : ServiceCreate) (db : Db) → Advances db (register uuid c d db).1
unfolding register
register-Advances uuid c d db =
    elim (Option-cases (get_by_identity (d.name, d.environment) db.services)) [
      | inl e ↦ elim (Commit-cases c) [
        | inl f ↦
            same-Advances db (register uuid c d db).1 (ground (arith, e, f)) (ground (arith, e, f))
              (λ u. subst UniqueSpans (ground (arith, e, f)) u)
        | inr f ↦ subst (Advances db) (ground (arith, e, f)) (Advances-refl db)
      ]
      | inr (s, e) ↦ subst (Advances db) (ground (arith, e)) (Advances-refl db)
    ]

pub ingest-Advances :
    (py : Python) (uuid now : ℕ) (c : Commit) (items : List TelemetryItem) (db : Db)
    → Advances db (Telemetry.ingest py uuid now c items db).1
ingest-Advances py uuid now c items db = elim (ingest_atomic py uuid now c items db) [
  | inl (r, db', e, s) ↦
      rw (e, s.after)
        (record {
          follows = append-Follows db.incidents s.incidents;
          keeps = λ k. record {
            triggers =
                map-append IncidentRecord.trigger_anomaly_id db.incidents s.incidents
                ∙ rw
                    (
                      k.triggers,
                      s.triggers,
                      select_where-append is_critical_anomaly db.anomalies s.anomalies,
                    )
                    (sym (
                      map-append AnomalyRecord.id (select_where is_critical_anomaly db.anomalies)
                        (select_where is_critical_anomaly s.anomalies)));
            unique_spans = k.unique_spans;
          };
        })
  | inr (x, e) ↦ rw e (Advances-refl db)
]

pub ingest_trace-Advances :
    (uuid now : ℕ) (c : Commit) (spans : List TraceSpanCreate) (db : Db)
    → Advances db (Traces.ingest uuid now c spans db).1
ingest_trace-Advances uuid now c spans db =
    let (i, a) = same (ingest_outcome uuid now c spans db) in
    same-Advances db (Traces.ingest uuid now c spans db).1 i a
      (ingest-UniqueSpans uuid now c spans db)
  where
    same :
        Outcome uuid now spans db (Traces.ingest uuid now c spans db)
        → ((Traces.ingest uuid now c spans db).1.incidents ≡ db.incidents)
          × ((Traces.ingest uuid now c spans db).1.anomalies ≡ db.anomalies)
    same (inl (r, db', e, a)) = rw (e, a.after) (refl, refl)
    same (inr (x, e)) = rw e (refl, refl)

pub correlate-Advances :
    (uuid ended_at created_at : ℕ) (c : Commit) (q : CorrelationAnalyzeRequest) (db : Db)
    → Advances db (analyze uuid ended_at created_at c q db).1
correlate-Advances uuid ended_at created_at c q db =
    elim (analyze_outcome uuid ended_at created_at c q db) [
      | inl (r, db', e, k) ↦
          rw e (same-Advances db db' k.same_incidents k.same_anomalies (λ u. rw k.same_spans u))
      | inr (x, e) ↦ rw e (Advances-refl db)
    ]

pub moved-Advances :
    (incident_id : ℕ) (f : IncidentRecord → IncidentRecord) (db : Db)
    (x : Result IncidentError IncidentResponse × Db)
    → ((r : IncidentRecord) → (f r).id ≡ r.id)
    → ((r : IncidentRecord) → (f r).trigger_anomaly_id ≡ r.trigger_anomaly_id)
    → Moves incident_id f db x
    → Advances db x.1
moved-Advances incident_id f db x k t (inl (i, s, h, m, e)) = rw e (record {
  follows = update-Follows incident_id f i db.incidents k h m;
  keeps = λ c. record {
    triggers = triggers-update (λ r. r.id == i.id) f db.incidents t ∙ c.triggers;
    unique_spans = c.unique_spans;
  };
})
moved-Advances incident_id f db x k t (inr (y, e)) = rw e (Advances-refl db)
