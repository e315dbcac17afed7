-- ===== src/Observability/Correlation/Uncorrelated.antt =====
-- The incidents that a correlation takes, and the links that it adds.
use software_engineering_car.Common.{
  ℕ, ◌≡◌, refl, sym, ◌∙◌, ap, ◌⊎◌, true, false, List, [], ◌∷◌, ◌++◌, map, ◌==◌, arith, Bool-cases,
  inl, inr, Option, none, some, ==→eq, ==_refl,
}
use software_engineering_car.Common.Table.{
  select_where, row_at, has_key, UniqueKeys, has_key-order_by, order_by-UniqueKeys,
  select_where-UniqueKeys,
}
use software_engineering_car.Common.Append.{has_key-append}
use software_engineering_car.Observability.Model.{
  Identity, IncidentRecord, AnomalyRecord, TelemetryRecord, MonitoredService,
  CorrelationIncidentRecord,
}
use software_engineering_car.Observability.Store.{Db}
use software_engineering_car.Observability.Correlation.{
  CorrelationIncidentRow, row_id, join_rows, telemetry_of, is_uncorrelated, by_creation,
  find_uncorrelated_incidents, links_of, add_row,
}

-- An incident is joined with its rows, or left out.
abbrev Joins : IncidentRecord → List CorrelationIncidentRow → List CorrelationIncidentRow → Type 0
Joins i rows x = (x ≡ rows) ⊎ ((r : CorrelationIncidentRow) × (row_id r ≡ i.id) × (x ≡ r ∷ rows))

add_row-Joins :
    (i : IncidentRecord) (a : Option AnomalyRecord) (t : Option TelemetryRecord)
    (s : Option MonitoredService) (rows : List CorrelationIncidentRow)
    → Joins i rows (add_row i a t s rows)
add_row-Joins i none t s rows = inl refl
add_row-Joins i (some a) none s rows = inl refl
add_row-Joins i (some a) (some t) none rows = inl refl
add_row-Joins i (some a) (some t) (some s) rows =
    inr (record { incident = i; anomaly = a; telemetry = t; service = s }, refl, refl)

join_rows-Joins :
    (db : Db) (i : IncidentRecord) (incidents : List IncidentRecord)
    → Joins i (join_rows db incidents) (join_rows db (i ∷ incidents))
unfolding join_rows
join_rows-Joins db i incidents =
    let a = row_at AnomalyRecord.id i.trigger_anomaly_id db.anomalies in
    add_row-Joins i a (telemetry_of db.telemetry a)
      (row_at MonitoredService.id i.service_id db.services) (join_rows db incidents)

join_rows-has_key :
    (db : Db) (k : ℕ) (incidents : List IncidentRecord)
    → has_key IncidentRecord.id k incidents ≡ false
    → has_key row_id k (join_rows db incidents) ≡ false
unfolding has_key
join_rows-has_key db k [] h = unfold join_rows in refl
join_rows-has_key db k (i ∷ incidents) h = elim (join_rows-Joins db i incidents) [
  | inl e ↦ rw e (join_rows-has_key db k incidents (ground (arith, h)))
  | inr (r, p, e) ↦ rw (e, p) (ground (arith, h, join_rows-has_key db k incidents))
]

join_rows-UniqueKeys :
    (db : Db) (incidents : List IncidentRecord)
    → UniqueKeys IncidentRecord.id incidents
    → UniqueKeys row_id (join_rows db incidents)
join_rows-UniqueKeys db [] u = unfold join_rows in _
join_rows-UniqueKeys db (i ∷ incidents) u =
    let rest = join_rows-UniqueKeys db incidents u.1 in
    elim (join_rows-Joins db i incidents) [
      | inl e ↦ rw e rest
      | inr (r, p, e) ↦ rw (e, p) (join_rows-has_key db i.id incidents u.0, rest)
    ]

pub found-UniqueKeys :
    (i : Identity) (started_at ended_at : ℕ) (db : Db)
    → UniqueKeys IncidentRecord.id db.incidents
    → UniqueKeys row_id (find_uncorrelated_incidents i started_at ended_at db)
unfolding find_uncorrelated_incidents
found-UniqueKeys i started_at ended_at db u =
    order_by-UniqueKeys row_id by_creation
      (select_where (is_uncorrelated i started_at ended_at db.links) (join_rows db db.incidents))
      (select_where-UniqueKeys row_id (is_uncorrelated i started_at ended_at db.links)
        (join_rows db db.incidents) (join_rows-UniqueKeys db db.incidents u))

unlinked :
    (i : Identity) (started_at ended_at : ℕ) (links : List CorrelationIncidentRecord)
    (r : CorrelationIncidentRow)
    → is_uncorrelated i started_at ended_at links r ≡ true
    → has_key CorrelationIncidentRecord.incident_id r.incident.id links ≡ false
unfolding is_uncorrelated
unlinked i started_at ended_at links r e = ground (arith, e)

selected-unlinked :
    (i : Identity) (started_at ended_at : ℕ) (links : List CorrelationIncidentRecord) (k : ℕ)
    (rows : List CorrelationIncidentRow)
    → has_key row_id k (select_where (is_uncorrelated i started_at ended_at links) rows) ≡ true
    → has_key CorrelationIncidentRecord.incident_id k links ≡ false
unfolding has_key select_where
selected-unlinked i started_at ended_at links k [] h = absurd (ground (arith, h))
selected-unlinked i started_at ended_at links k (r ∷ rows) h =
    elim (Bool-cases (is_uncorrelated i started_at ended_at links r)) [
      | inl e ↦ elim (Bool-cases (row_id r == k)) [
        | inl f ↦
            let p = ==→eq (row_id r) k f in
            let l = ap (λ x. has_key CorrelationIncidentRecord.incident_id x links) p in
            sym l ∙ unlinked i started_at ended_at links r e
        | inr f ↦ selected-unlinked i started_at ended_at links k rows (ground (arith, h, e, f))
      ]
      | inr e ↦ selected-unlinked i started_at ended_at links k rows (ground (arith, h, e))
    ]

pub found-unlinked :
    (i : Identity) (started_at ended_at : ℕ) (db : Db) (k : ℕ)
    → has_key row_id k (find_uncorrelated_incidents i started_at ended_at db) ≡ true
    → has_key CorrelationIncidentRecord.incident_id k db.links ≡ false
unfolding find_uncorrelated_incidents
found-unlinked i started_at ended_at db k h =
    selected-unlinked i started_at ended_at db.links k (join_rows db db.incidents) (
      sym (
        has_key-order_by row_id by_creation k (
          select_where (is_uncorrelated i started_at ended_at db.links)
            (join_rows db db.incidents)))
      ∙ h)

pub has_key-links_of :
    (c t k : ℕ) (rows : List CorrelationIncidentRow)
    → has_key CorrelationIncidentRecord.incident_id k (links_of c t (map row_id rows))
      ≡ has_key row_id k rows
unfolding has_key
has_key-links_of c t k [] = refl
has_key-links_of c t k (r ∷ rows) = ground (arith, has_key-links_of c t k rows)

pub links_of-UniqueKeys :
    (c t : ℕ) (rows : List CorrelationIncidentRow)
    → UniqueKeys row_id rows
    → UniqueKeys CorrelationIncidentRecord.incident_id (links_of c t (map row_id rows))
links_of-UniqueKeys c t [] u = _
links_of-UniqueKeys c t (r ∷ rows) u =
    (has_key-links_of c t (row_id r) rows ∙ u.0, links_of-UniqueKeys c t rows u.1)

-- Once every incident that was found is linked, none is found.
pub none_left :
    (i : Identity) (started_at ended_at : ℕ) (links more : List CorrelationIncidentRecord)
    (rows : List CorrelationIncidentRow)
    → ((k : ℕ)
        → has_key row_id k (select_where (is_uncorrelated i started_at ended_at links) rows) ≡ true
        → has_key CorrelationIncidentRecord.incident_id k more ≡ true)
    → select_where (is_uncorrelated i started_at ended_at (links ++ more)) rows ≡ []
unfolding has_key select_where
none_left i started_at ended_at links more [] h = refl
none_left i started_at ended_at links more (r ∷ rows) h =
    let a = has_key-append CorrelationIncidentRecord.incident_id (row_id r) links more in
    elim (Bool-cases (is_uncorrelated i started_at ended_at links r)) [
      | inl e ↦
          let taken = h (row_id r) (ground (arith, e, ==_refl (row_id r))) in
          let out : is_uncorrelated i started_at ended_at (links ++ more) r ≡ false =
            unfold is_uncorrelated in ground (arith, a, taken) in
          rw out
            (none_left i started_at ended_at links more rows (λ k f. h k (ground (arith, e, f))))
      | inr e ↦
          let out : is_uncorrelated i started_at ended_at (links ++ more) r ≡ false =
            unfold is_uncorrelated in ground (arith, a, e) in
          rw out
            (none_left i started_at ended_at links more rows (λ k f. h k (ground (arith, e, f))))
    ]
