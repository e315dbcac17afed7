-- ===== src/Observability/Correlation/Analysis.antt =====
-- What one analysis correlates.
use mathlib.Core.Path.{subst}
use software_engineering_car.Common.{
  ℕ, ◌-◌, ◌≤◌, ◌<◌, ◌≡◌, refl, sym, ◌∙◌, ◌⊎◌, false, List, [], ◌∷◌, ◌++◌, map, length, ltb, arith,
  Bool-cases, inl, inr, Option, none, some, Option-cases,
}
use software_engineering_car.Common.Table.{select_where, UniqueKeys, has_key-order_by}
use software_engineering_car.Common.Append.{UniqueKeys-append}
use software_engineering_car.Common.Sorting.{order_by}
use software_engineering_car.Observability.Model.{
  Identity, IncidentRecord, CorrelationIncidentRecord,
}
use software_engineering_car.Observability.RootCause.{CorrelationSignal, RootCauseCandidate}
use software_engineering_car.Observability.RootCause as RootCause
use software_engineering_car.Observability.Store.{
  Db, Result, ok, err, Commit, committed, integrity_error, failed, CorrelationRecord,
}
use software_engineering_car.Observability.Correlation.{
  CorrelationAnalyzeRequest, CorrelationIncidentRow, CorrelationError, CorrelationResponse, row_id,
  signal_of, join_rows, is_uncorrelated, by_creation, find_uncorrelated_incidents, links_of,
  correlate, minutes, analyze, summary_of, new_correlation,
}
use software_engineering_car.Observability.Correlation.Uncorrelated.{
  found-UniqueKeys, found-unlinked, has_key-links_of, links_of-UniqueKeys, none_left,
}

-- The rows that an analysis finds.
abbrev pub found : CorrelationAnalyzeRequest → ℕ → Db → List CorrelationIncidentRow
found q ended_at db =
    find_uncorrelated_incidents (q.service, q.environment) (ended_at - minutes q.window_minutes)
      ended_at db

-- A correlation of the found incidents: enough of them, their links after the old ones, and the
-- root cause of their signals.
pub record Correlated (ended_at created_at : ℕ) (q : CorrelationAnalyzeRequest) (db db' : Db)
    (r : CorrelationResponse) : Type 0 where
  pub enough : q.minimum_incidents ≤ length (found q ended_at db)
  pub incidents : r.incident_ids ≡ map row_id (found q ended_at db)
  pub cause : RootCause.analyze (map signal_of (found q ended_at db)) ≡ some r.root_cause
  pub correlations : db'.correlations ≡ db.correlations ++ (r.correlation ∷ [])
  pub links :
      db'.links
      ≡ db.links ++ links_of r.correlation.id created_at (map row_id (found q ended_at db))
  pub same_rows : join_rows db' db'.incidents ≡ join_rows db db.incidents
  pub same_incidents : db'.incidents ≡ db.incidents
  pub same_anomalies : db'.anomalies ≡ db.anomalies
  pub same_spans : db'.spans ≡ db.spans

abbrev pub Outcome :
    ℕ
    → ℕ
    → CorrelationAnalyzeRequest
    → Db
    → Result CorrelationError CorrelationResponse × Db
    → Type 0
Outcome ended_at created_at q db x =
    ((r : CorrelationResponse) × (db' : Db) × (x ≡ (ok r, db'))
      × Correlated ended_at created_at q db db' r)
    ⊎ ((e : CorrelationError) × (x ≡ (err e, db)))

-- The joins read neither the correlations nor the links.
join_rows_same :
    (db : Db) (correlations : List CorrelationRecord) (links : List CorrelationIncidentRecord)
    (incidents : List IncidentRecord)
    → join_rows (record db { correlations = correlations; links = links }) incidents
      ≡ join_rows db incidents
unfolding join_rows
join_rows_same db correlations links [] = refl
join_rows_same db correlations links (i ∷ incidents) =
    rw (join_rows_same db correlations links incidents) refl

correlate-Outcome :
    (uuid ended_at created_at : ℕ) (c : Commit) (q : CorrelationAnalyzeRequest) (db : Db)
    (rows : List CorrelationIncidentRow) (cause : Option RootCauseCandidate)
    → found q ended_at db ≡ rows
    → q.minimum_incidents ≤ length rows
    → RootCause.analyze (map signal_of rows) ≡ cause
    → Outcome ended_at created_at q db
        (correlate uuid (ended_at - minutes q.window_minutes) ended_at created_at c q rows cause db)
correlate-Outcome uuid ended_at created_at c q db [] cause f m h =
    inr (CorrelationError.no_signals, refl)
correlate-Outcome uuid ended_at created_at c q db (r ∷ rows) none f m h =
    inr (CorrelationError.no_signals, refl)
correlate-Outcome uuid ended_at created_at committed q db (r ∷ rows) (some cause) f m h =
    let ids = map row_id (r ∷ rows) in
    let n =
      new_correlation uuid (ended_at - minutes q.window_minutes) ended_at created_at r.service
        (summary_of q (length ids) cause) cause in
    inl (
      record { correlation = n; service = r.service; incident_ids = ids; root_cause = cause },
      record db {
        correlations = db.correlations ++ (n ∷ []);
        links = db.links ++ links_of uuid created_at ids;
      },
      refl,
      record {
        enough = rw f m;
        incidents = rw f refl;
        cause = rw f h;
        correlations = refl;
        links = rw f refl;
        same_incidents = refl;
        same_anomalies = refl;
        same_spans = refl;
        same_rows =
            join_rows_same db (db.correlations ++ (n ∷ []))
              (db.links ++ links_of uuid created_at ids) db.incidents;
      },
    )
correlate-Outcome uuid ended_at created_at integrity_error q db (r ∷ rows) (some cause) f m h =
    inr (CorrelationError.storage_error, refl)
correlate-Outcome uuid ended_at created_at failed q db (r ∷ rows) (some cause) f m h =
    inr (CorrelationError.storage_error, refl)

-- An analysis correlates all incidents that it finds and returns a response, or it raises and
-- changes nothing. It correlates only where it finds as many as the request's minimum.
pub analyze_outcome :
    (uuid ended_at created_at : ℕ) (c : Commit) (q : CorrelationAnalyzeRequest) (db : Db)
    → Outcome ended_at created_at q db (analyze uuid ended_at created_at c q db)
unfolding analyze
analyze_outcome uuid ended_at created_at c q db =
    let rows = found q ended_at db in
    elim (Bool-cases (ltb (length rows) q.minimum_incidents)) [
      | inl e ↦ inr (CorrelationError.insufficient (length rows), rw e refl)
      | inr e ↦ rw e (
          correlate-Outcome uuid ended_at created_at c q db rows
            (RootCause.analyze (map signal_of rows)) refl (ground (arith, e)) refl)
    ]

-- Where the incidents' ids are unique, an analysis that no other transaction comes between leaves
-- each incident in at most one correlation if each was.
pub analyze-UniqueKeys :
    (uuid ended_at created_at : ℕ) (c : Commit) (q : CorrelationAnalyzeRequest) (db : Db)
    → UniqueKeys IncidentRecord.id db.incidents
    → UniqueKeys CorrelationIncidentRecord.incident_id db.links
    → UniqueKeys CorrelationIncidentRecord.incident_id
        (analyze uuid ended_at created_at c q db).1.links
analyze-UniqueKeys uuid ended_at created_at c q db u v =
    let started_at = ended_at - minutes q.window_minutes in
    elim (analyze_outcome uuid ended_at created_at c q db) [
      | inl (r, db', e, k) ↦
          rw (e, k.links)
            (UniqueKeys-append CorrelationIncidentRecord.incident_id db.links
              (links_of r.correlation.id created_at (map row_id (found q ended_at db))) v
              (links_of-UniqueKeys r.correlation.id created_at (found q ended_at db)
                (found-UniqueKeys (q.service, q.environment) started_at ended_at db u))
              (λ i h.
                found-unlinked (q.service, q.environment) started_at ended_at db i
                  (sym (has_key-links_of r.correlation.id created_at i (found q ended_at db)) ∙ h)))
      | inr (x, e) ↦ rw e v
    ]

found-again :
    (ended_at created_at : ℕ) (q : CorrelationAnalyzeRequest) (db db' : Db)
    (r : CorrelationResponse)
    → Correlated ended_at created_at q db db' r
    → found q ended_at db' ≡ []
unfolding find_uncorrelated_incidents order_by select_where join_rows
found-again ended_at created_at q db db' r k =
    let started_at = ended_at - minutes q.window_minutes in
    let i : Identity = (q.service, q.environment) in
    let all =
      select_where (is_uncorrelated i started_at ended_at db.links) (join_rows db db.incidents) in
    let more = links_of r.correlation.id created_at (map row_id (found q ended_at db)) in
    let e = none_left i started_at ended_at db.links more (join_rows db db.incidents) (λ n h.
      has_key-links_of r.correlation.id created_at n (found q ended_at db)
      ∙ (has_key-order_by row_id by_creation n all ∙ h)) in
    rw (k.same_rows, k.links, e) refl

-- After an analysis that correlated, the same analysis of the same window finds no incident, and is
-- refused, if its minimum is positive.
pub analyze_twice :
    (uuid uuid' ended_at created_at later : ℕ) (c c' : Commit) (q : CorrelationAnalyzeRequest)
    (db db' : Db) (r : CorrelationResponse)
    → 0 < q.minimum_incidents
    → analyze uuid ended_at created_at c q db ≡ (ok r, db')
    → analyze uuid' ended_at later c' q db' ≡ (err (CorrelationError.insufficient 0), db')
analyze_twice uuid uuid' ended_at created_at later c c' q db db' r pos h =
    elim (analyze_outcome uuid ended_at created_at c q db) [
      | inl (r', d, e, k) ↦
          let p : d ≡ db' = ground (arith, h, e) in
          let none =
            subst (λ x. found q ended_at x ≡ []) p (found-again ended_at created_at q db d r' k) in
          unfold analyze in rw none (ground (arith, pos))
      | inr (x, e) ↦ absurd (ground (arith, h, e))
    ]

analyze-some :
    (s : CorrelationSignal) (ss : List CorrelationSignal)
    → (b : RootCauseCandidate) × (RootCause.analyze (s ∷ ss) ≡ some b)
analyze-some s ss = elim (Option-cases (RootCause.analyze (s ∷ ss))) [
  | inl e ↦ absurd (unfold RootCause.analyze in ground (arith, e))
  | inr x ↦ x
]

correlate-ok :
    (uuid started_at ended_at created_at : ℕ) (q : CorrelationAnalyzeRequest) (db : Db)
    (rows : List CorrelationIncidentRow)
    → 0 < length rows
    → (x : CorrelationResponse × Db) × (correlate uuid started_at ended_at created_at committed q
          rows
          (RootCause.analyze (map signal_of rows))
          db
        ≡ (ok x.0, x.1))
correlate-ok uuid started_at ended_at created_at q db [] pos = absurd (omega (arith, pos))
correlate-ok uuid started_at ended_at created_at q db (r ∷ rows) pos =
    let (b, e) = analyze-some (signal_of r) (map signal_of rows) in
    let n =
      new_correlation uuid started_at ended_at created_at r.service
        (summary_of q (length (map row_id (r ∷ rows))) b) b in
    (
      (
        record {
          correlation = n;
          service = r.service;
          incident_ids = map row_id (r ∷ rows);
          root_cause = b;
        },
        record db {
          correlations = db.correlations ++ (n ∷ []);
          links = db.links ++ links_of uuid created_at (map row_id (r ∷ rows));
        },
      ),
      rw e refl,
    )

-- Where at least the minimum of incidents, a positive number, is found and the transaction commits,
-- an analysis correlates all of them.
pub analyze_correlates :
    (uuid ended_at created_at : ℕ) (q : CorrelationAnalyzeRequest) (db : Db)
    → 0 < q.minimum_incidents
    → q.minimum_incidents ≤ length (found q ended_at db)
    → (r : CorrelationResponse) × (db' : Db) × (analyze uuid ended_at created_at committed q db
        ≡ (ok r, db'))
      × Correlated ended_at created_at q db db' r
analyze_correlates uuid ended_at created_at q db pos enough =
    let rows = found q ended_at db in
    let (x, e) =
      correlate-ok uuid (ended_at - minutes q.window_minutes) ended_at created_at q db rows
        (omega arith) in
    let f : ltb (length rows) q.minimum_incidents ≡ false = ground (arith, enough) in
    let a : analyze uuid ended_at created_at committed q db ≡ (ok x.0, x.1) =
      unfold analyze in rw f e in
    elim (analyze_outcome uuid ended_at created_at committed q db) [
      | inl y ↦ y
      | inr (y, g) ↦ absurd (ground (arith, a, g))
    ]
