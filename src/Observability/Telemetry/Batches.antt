-- ===== src/Observability/Telemetry/Batches.antt =====
-- The batches of one ingestion: that their parts fit.
use software_engineering_car.Common.{
  ℕ, suc, ◌+◌, ◌≡◌, refl, ap, Bool, Option, some, List, [], ◌∷◌, ◌++◌, map, length, arith, All,
  All-append, inl, inr, Option-cases, Bool-cases,
}
use software_engineering_car.Common.Table.{select_where}
use software_engineering_car.Observability.Model.{
  is_critical, TelemetryItem, TelemetryRecord, AnomalyRecord, IncidentRecord,
}
use software_engineering_car.Observability.Detection.{Python, AnomalyFinding, evaluate}
use software_engineering_car.Observability.Detection.Rules.{
  is_critical_item, critical_findings, evaluate_findings,
}
use software_engineering_car.Observability.Telemetry.{
  telemetry_batch, anomaly_batch, incident_batch, with_id, findings_with_telemetry_ids,
  service_id_by_telemetry_id, critical_anomalies,
}

-- A telemetry id that the dictionary has.
abbrev pub Known : List TelemetryRecord → ℕ → Type 0
Known records k = (service_id : ℕ) × (service_id_by_telemetry_id records k ≡ some service_id)

Known-cons :
    (r : TelemetryRecord) (records : List TelemetryRecord) (k : ℕ)
    → Known records k
    → Known (r ∷ records) k
unfolding service_id_by_telemetry_id
Known-cons r records k (s, e) = (s, rw e refl)

Known-head : (r : TelemetryRecord) (records : List TelemetryRecord) → Known (r ∷ records) r.id
unfolding service_id_by_telemetry_id
Known-head r records = elim (Option-cases (service_id_by_telemetry_id records r.id)) [
  | inl e ↦ (r.service_id, ground (arith, e))
  | inr (s, e) ↦ (s, rw e refl)
]

later_ids :
    (r : TelemetryRecord) (records rest : List TelemetryRecord)
    → All (λ x. Known records x.id) rest
    → All (λ x. Known (r ∷ records) x.id) rest
later_ids r records [] k = _
later_ids r records (x ∷ rest) k = (Known-cons r records x.id k.0, later_ids r records rest k.1)

pub own_ids : (records : List TelemetryRecord) → All (λ x. Known records x.id) records
own_ids [] = _
own_ids (r ∷ records) = (Known-head r records, later_ids r records records (own_ids records))

with_id-Known :
    (records : List TelemetryRecord) (k : ℕ) (fs : List AnomalyFinding)
    → Known records k
    → All (λ f. Known records f.1) (with_id k fs)
with_id-Known records k [] h = _
with_id-Known records k (f ∷ fs) h = (h, with_id-Known records k fs h)

pub is_critical_anomaly : AnomalyRecord → Bool
is_critical_anomaly a = is_critical a.severity

-- The findings are there for each item, with ids that the dictionary has, and as many of them are
-- critical as there are critical items.
abbrev pub HasFindings :
    Python → List TelemetryRecord → List TelemetryItem → Option (List (AnomalyFinding × ℕ)) → Type 0
HasFindings py all items o =
    (fs : List (AnomalyFinding × ℕ)) × (o ≡ some fs)
    × All (λ f. Known all f.1) fs
    × (length (select_where (λ f. is_critical f.0.severity) fs)
        ≡ length (select_where (is_critical_item py) items))

critical-with_id :
    (k : ℕ) (fs : List AnomalyFinding) (rest : List (AnomalyFinding × ℕ))
    → length
        (select_where (λ (f : AnomalyFinding × ℕ). is_critical f.0.severity) (with_id k fs ++ rest))
      ≡ length (critical_findings fs)
        + length (select_where (λ (f : AnomalyFinding × ℕ). is_critical f.0.severity) rest)
unfolding select_where
critical-with_id k [] rest = omega arith
critical-with_id k (f ∷ fs) rest = ground (arith, critical-with_id k fs rest)

pub findings_total :
    (py : Python) (uuid now : ℕ) (all : List TelemetryRecord) (resolved : List (TelemetryItem × ℕ))
    → All (λ x. Known all x.id) (telemetry_batch uuid now resolved)
    → HasFindings py all (map (λ r. r.0) resolved) (
        findings_with_telemetry_ids py
          (map (λ r. r.0) resolved)
          (telemetry_batch uuid now resolved))
unfolding telemetry_batch findings_with_telemetry_ids select_where
findings_total py uuid now all [] k = ([], refl, _, refl)
findings_total py uuid now all ((item, service_id) ∷ resolved) k =
    let (fs, e, known, n) = findings_total py (suc uuid) now all resolved k.1 in
    (
      with_id uuid (evaluate py item) ++ fs,
      rw e refl,
      All-append (λ f. Known all f.1) (with_id uuid (evaluate py item)) fs
          (with_id-Known all uuid (evaluate py item) k.0) known,
      ground (arith, n, critical-with_id uuid (evaluate py item) fs, (evaluate_findings py item).0),
    )

-- The critical anomalies are there, in order, each with its service.
abbrev pub HasCritical :
    List AnomalyRecord → List (AnomalyFinding × ℕ) → Option (List (AnomalyRecord × ℕ)) → Type 0
HasCritical anomalies fs o =
    (cs : List (AnomalyRecord × ℕ)) × (o ≡ some cs)
    × (map (λ c. c.0) cs ≡ select_where is_critical_anomaly anomalies)
    × (length cs ≡ length (select_where (λ f. is_critical f.0.severity) fs))

pub critical_total :
    (uuid now : ℕ) (all : List TelemetryRecord) (fs : List (AnomalyFinding × ℕ))
    → All (λ f. Known all f.1) fs
    → HasCritical
        (anomaly_batch uuid now fs)
        fs
        (critical_anomalies all (anomaly_batch uuid now fs) fs)
unfolding anomaly_batch critical_anomalies select_where is_critical_anomaly
critical_total uuid now all [] k = ([], refl, refl, refl)
critical_total uuid now all ((f, telemetry_id) ∷ fs) k =
    let (cs, e, same, n) = critical_total (suc uuid) now all fs k.1 in
    let (s, known) = k.0 in
    elim (Bool-cases (is_critical f.severity)) [
      | inl c ↦ (
        (
          record {
            id = uuid;
            telemetry_id = telemetry_id;
            rule_id = f.rule_id;
            category = f.category;
            severity = f.severity;
            title = f.title;
            description = f.description;
            observed_value = f.observed_value;
            threshold = f.threshold;
            detected_at = now;
          },
          s,
        )
            ∷ cs,
        rw (c, known, e) refl,
        rw (c, same) refl,
        ground (arith, c, n),
      )
      | inr c ↦ (cs, rw (c, e) refl, rw (c, same) refl, ground (arith, c, n))
    ]

pub triggers-incident_batch :
    (uuid now : ℕ) (cs : List (AnomalyRecord × ℕ))
    → map IncidentRecord.trigger_anomaly_id (incident_batch uuid now cs)
      ≡ map AnomalyRecord.id (map (λ c. c.0) cs)
unfolding incident_batch
triggers-incident_batch uuid now [] = refl
triggers-incident_batch uuid now ((a, s) ∷ cs) =
    ap (λ rest. a.id ∷ rest) (triggers-incident_batch (suc uuid) now cs)

pub length-incident_batch :
    (uuid now : ℕ) (cs : List (AnomalyRecord × ℕ)) → length (incident_batch uuid now cs) ≡ length cs
unfolding incident_batch
length-incident_batch uuid now [] = refl
length-incident_batch uuid now (c ∷ cs) = ap suc (length-incident_batch (suc uuid) now cs)

pub length-telemetry_batch :
    (uuid now : ℕ) (items : List (TelemetryItem × ℕ))
    → length (telemetry_batch uuid now items) ≡ length items
unfolding telemetry_batch
length-telemetry_batch uuid now [] = refl
length-telemetry_batch uuid now (i ∷ items) = ap suc (length-telemetry_batch (suc uuid) now items)
