-- ===== src/Observability/Telemetry/Ingest.antt =====
-- What one ingestion leaves in the tables.
use mathlib.Core.Path.{subst}
use software_engineering_car.Common.{
  ℕ, suc, ◌+◌, ◌≡◌, refl, sym, ◌∙◌, ap, List, [], ◌∷◌, ◌++◌, map, length, length-map, ◌⊎◌, inl, inr,
}
use software_engineering_car.Common.Table.{select_where}
use software_engineering_car.Observability.Model.{
  TelemetryItem, TelemetryRecord, AnomalyRecord, IncidentRecord, item_identity,
}
use software_engineering_car.Observability.Store.{
  Db, Result, ok, err, Result-cases, Commit, Commit-cases, committed, integrity_error, failed,
}
use software_engineering_car.Observability.Registry.Resolve.{
  look_up_each, resolve_services_uncached, look_up_each_items,
}
use software_engineering_car.Observability.Detection.{Python}
use software_engineering_car.Observability.Detection.Rules.{is_critical_item}
use software_engineering_car.Observability.Telemetry.{
  IngestError, TelemetryIngestResponse, telemetry_batch, anomaly_batch, incident_batch, ingest,
  store_batch,
}
use software_engineering_car.Observability.Telemetry.Batches.{
  own_ids, findings_total, critical_total, is_critical_anomaly, triggers-incident_batch,
  length-incident_batch, length-telemetry_batch,
}

-- The tables after an ingestion: new telemetry, anomalies and incidents at the end of the old.
pub record Stores (py : Python) (items : List TelemetryItem) (db db' : Db)
    (r : TelemetryIngestResponse) : Type 0 where
  pub records : List TelemetryRecord
  pub anomalies : List AnomalyRecord
  pub incidents : List IncidentRecord
  pub after : db' ≡ record db {
    telemetry = db.telemetry ++ records;
    anomalies = db.anomalies ++ anomalies;
    incidents = db.incidents ++ incidents;
  }
  pub payloads : map TelemetryRecord.payload records ≡ items
  pub triggers :
      map IncidentRecord.trigger_anomaly_id incidents
      ≡ map AnomalyRecord.id (select_where is_critical_anomaly anomalies)
  pub accepted : r.accepted_count ≡ length items
  pub created : r.created_incident_count ≡ length (select_where (is_critical_item py) items)
  pub reported : r.incident_ids ≡ map IncidentRecord.id incidents

payloads-telemetry_batch :
    (uuid now : ℕ) (resolved : List (TelemetryItem × ℕ))
    → map TelemetryRecord.payload (telemetry_batch uuid now resolved) ≡ map (λ r. r.0) resolved
unfolding telemetry_batch
payloads-telemetry_batch uuid now [] = refl
payloads-telemetry_batch uuid now ((i, s) ∷ resolved) =
    ap (λ l. i ∷ l) (payloads-telemetry_batch (suc uuid) now resolved)

abbrev pub Stored :
    Python → List TelemetryItem → Db → Result IngestError TelemetryIngestResponse × Db → Type 0
Stored py items db x =
    (r : TelemetryIngestResponse) × (db' : Db) × (x ≡ (ok r, db')) × Stores py items db db' r

store_batch-Stored :
    (py : Python) (uuid now : ℕ) (resolved : List (TelemetryItem × ℕ)) (db : Db)
    → Stored py
        (map (λ r. r.0) resolved)
        db
        (store_batch py uuid now committed db (map (λ r. r.0) resolved) (ok resolved))
store_batch-Stored py uuid now resolved db =
    let records = telemetry_batch uuid now resolved in
    let next = uuid + length resolved in
    let items = map (λ (r : TelemetryItem × ℕ). r.0) resolved in
    let (fs, e, known, n) = findings_total py uuid now records resolved (own_ids records) in
    let (cs, f, same, m) = critical_total next now records fs known in
    let anomalies = anomaly_batch next now fs in
    let incidents = incident_batch (next + length fs) now cs in
    (
      record {
        accepted_count = length records;
        telemetry_ids = map TelemetryRecord.id records;
        received_at = now;
        detected_anomaly_count = length anomalies;
        anomaly_ids = map AnomalyRecord.id anomalies;
        created_incident_count = length incidents;
        incident_ids = map IncidentRecord.id incidents;
      },
      record db {
        telemetry = db.telemetry ++ records;
        anomalies = db.anomalies ++ anomalies;
        incidents = db.incidents ++ incidents;
      },
      rw (e, f) refl,
      record {
        records = records;
        anomalies = anomalies;
        incidents = incidents;
        after = refl;
        payloads = payloads-telemetry_batch uuid now resolved;
        triggers =
            triggers-incident_batch (next + length fs) now cs ∙ ap (map AnomalyRecord.id) same;
        accepted =
            length-telemetry_batch uuid now resolved
            ∙ sym (length-map (λ (r : TelemetryItem × ℕ). r.0) resolved);
        created = length-incident_batch (next + length fs) now cs ∙ (m ∙ n);
        reported = refl;
      },
    )

-- Where every item's service is registered and the transaction commits, an ingestion returns a
-- response: it adds one row of telemetry for each item, and one incident for each critical anomaly
-- that it adds, in order; it creates as many incidents as there are critical items, reports their
-- ids, and changes no other table.
pub ingest-Stores :
    (py : Python) (uuid now : ℕ) (items : List TelemetryItem) (db : Db)
    (resolved : List (TelemetryItem × ℕ))
    → look_up_each item_identity db.services items ≡ ok resolved
    → (r : TelemetryIngestResponse) × (db' : Db) × (ingest py uuid now committed items db
        ≡ (ok r, db'))
      × Stores py items db db' r
unfolding ingest
ingest-Stores py uuid now items db resolved h =
    let e = resolve_services_uncached item_identity db.services items ∙ h in
    let same = look_up_each_items item_identity db.services items resolved h in
    rw e (
      subst (λ its. Stored py its db (store_batch py uuid now committed db its (ok resolved))) same
        (store_batch-Stored py uuid now resolved db))

abbrev pub IsKept : Db → Result IngestError TelemetryIngestResponse × Db → Type 0
IsKept db x = (e : IngestError) × (x ≡ (err e, db))

store_batch-IsKept :
    (py : Python) (uuid now : ℕ) (c : Commit) (resolved : List (TelemetryItem × ℕ)) (db : Db)
    → (c ≡ integrity_error) ⊎ (c ≡ failed)
    → IsKept db (store_batch py uuid now c db (map (λ r. r.0) resolved) (ok resolved))
store_batch-IsKept py uuid now c resolved db h =
    let records = telemetry_batch uuid now resolved in
    let next = uuid + length resolved in
    let (fs, e, known, n) = findings_total py uuid now records resolved (own_ids records) in
    let (cs, f, same, m) = critical_total next now records fs known in
    elim h [
      | inl x ↦ (IngestError.storage_error, rw (x, e, f) refl)
      | inr x ↦ (IngestError.storage_error, rw (x, e, f) refl)
    ]

-- A commit that fails undoes the whole batch.
ingest-IsKept :
    (py : Python) (uuid now : ℕ) (c : Commit) (items : List TelemetryItem) (db : Db)
    (resolved : List (TelemetryItem × ℕ))
    → look_up_each item_identity db.services items ≡ ok resolved
    → (c ≡ integrity_error) ⊎ (c ≡ failed)
    → IsKept db (ingest py uuid now c items db)
unfolding ingest
ingest-IsKept py uuid now c items db resolved h f =
    let e = resolve_services_uncached item_identity db.services items ∙ h in
    rw e (
      subst (λ its. IsKept db (store_batch py uuid now c db its (ok resolved)))
        (look_up_each_items item_identity db.services items resolved h)
        (store_batch-IsKept py uuid now c resolved db f))

-- An ingestion either stores the whole batch, with one row of telemetry for each item and one
-- incident for each new critical anomaly, or raises and changes nothing.
pub ingest_atomic :
    (py : Python) (uuid now : ℕ) (c : Commit) (items : List TelemetryItem) (db : Db)
    → Stored py items db (ingest py uuid now c items db) ⊎ IsKept db (ingest py uuid now c items db)
unfolding ingest
ingest_atomic py uuid now c items db =
    elim (Result-cases (look_up_each item_identity db.services items)) [
      | inl (resolved, h) ↦ elim (Commit-cases c) [
        | inl e ↦ rw e (inl (ingest-Stores py uuid now items db resolved h))
        | inr f ↦ inr (ingest-IsKept py uuid now c items db resolved h f)
      ]
      | inr (i, h) ↦
          let e = resolve_services_uncached item_identity db.services items ∙ h in
          inr (IngestError.unregistered i, rw e refl)
    ]
