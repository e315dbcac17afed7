-- ===== src/Observability/Incidents/Transitions.antt =====
-- The state machine of incidents: open, acknowledged, resolved.
use mathlib.Core.Path.{subst}
use software_engineering_car.Common.{
  ℕ, String, ◌≡◌, refl, sym, ◌∙◌, ◌⊎◌, true, false, Option, none, some, List, ◌==◌, arith,
  Bool-cases, inl, inr, Option-cases, ==→eq,
}
use software_engineering_car.Common.Table.{update_where, row_at, key-row_at, row_at-update_where}
use software_engineering_car.Observability.Model.{
  IncidentStatus, is_open, is_resolved, IncidentRecord, MonitoredService,
}
use software_engineering_car.Observability.Store.{
  Db, Result, ok, err, Commit, committed, integrity_error, failed,
}
use software_engineering_car.Observability.Incidents.{
  IncidentError, IncidentResponse, to_response, get_by_id, join_row, join_service, save,
  acknowledged_row, resolved_row, acknowledge_read, acknowledge, resolve_read, resolve,
}

-- One step of an incident: what it needs, and every column that it sets.
pub data Step : IncidentRecord → IncidentRecord → Type 0 where
  acknowledging :
      {i : IncidentRecord} (now : ℕ) (by : String)
      → is_open i.status ≡ true
      → Step i (record i {
        status = IncidentStatus.acknowledged;
        acknowledged_at = some now;
        acknowledged_by = some by;
      })
  resolving :
      {i : IncidentRecord} (now : ℕ) (by summary : String)
      → is_resolved i.status ≡ false
      → Step i (record i {
        status = IncidentStatus.resolved;
        resolved_at = some now;
        resolved_by = some by;
        resolution_summary = some summary;
      })

pub get_by_id-row :
    (k : ℕ) (db : Db) (i : IncidentRecord) (s : MonitoredService)
    → get_by_id k db ≡ some (i, s)
    → row_at IncidentRecord.id k db.incidents ≡ some i
unfolding get_by_id
get_by_id-row k db i s h = found (row_at IncidentRecord.id k db.incidents) h
  where
    found : (o : Option IncidentRecord) → join_row db.services o ≡ some (i, s) → o ≡ some i
    found none h = absurd (ground (arith, h))
    found (some j) h = joined (row_at MonitoredService.id j.service_id db.services) h
      where
        joined : (o : Option MonitoredService) → join_service j o ≡ some (i, s) → some j ≡ some i
        joined none h = absurd (ground (arith, h))
        joined (some t) h = ground (arith, h)

-- Any number of steps.
pub data Steps : IncidentRecord → IncidentRecord → Type 0 where
  stay : {i : IncidentRecord} → Steps i i
  step : {i j k : IncidentRecord} → Step i j → Steps j k → Steps i k

pub Steps-append : {i j k : IncidentRecord} → Steps i j → Steps j k → Steps i k
Steps-append stay t = t
Steps-append (step s r) t = step s (Steps-append r t)

-- An operation that moves the row of `i` by `f`, or raises and changes nothing.
abbrev pub Moves :
    ℕ → (IncidentRecord → IncidentRecord) → Db → Result IncidentError IncidentResponse × Db → Type 0
Moves incident_id f db x =
    ((i : IncidentRecord) × (s : MonitoredService) × (row_at IncidentRecord.id incident_id
          db.incidents
        ≡ some i)
      × Step i (f i)
      × (x ≡ (
        ok (to_response (f i) s),
        record db { incidents = update_where (λ r. r.id == i.id) f db.incidents },
      )))
    ⊎ ((e : IncidentError) × (x ≡ (err e, db)))

save-Moves :
    (incident_id : ℕ) (c : Commit) (f : IncidentRecord → IncidentRecord) (i : IncidentRecord)
    (s : MonitoredService) (db : Db)
    → row_at IncidentRecord.id incident_id db.incidents ≡ some i
    → Step i (f i)
    → Moves incident_id f db (save c f i s db)
save-Moves incident_id committed f i s db h m = inl (i, s, h, m, refl)
save-Moves incident_id integrity_error f i s db h m = inr (IncidentError.storage_error, refl)
save-Moves incident_id failed f i s db h m = inr (IncidentError.storage_error, refl)

-- Acknowledging an incident moves it from open to acknowledged, or raises and changes nothing.
pub acknowledge-Moves :
    (incident_id now : ℕ) (c : Commit) (by : String) (db : Db)
    → Moves incident_id (acknowledged_row now by) db (acknowledge incident_id now c by db)
unfolding acknowledge acknowledge_read
acknowledge-Moves incident_id now c by db = elim (Option-cases (get_by_id incident_id db)) [
  | inl e ↦ inr (IncidentError.not_found, ground (arith, e))
  | inr ((i, s), e) ↦ elim (Bool-cases (is_open i.status)) [
    | inl o ↦
        let x : acknowledge incident_id now c by db ≡ save c (acknowledged_row now by) i s db =
          ground (arith, e, o) in
        rw x (
          save-Moves incident_id c (acknowledged_row now by) i s db
            (get_by_id-row incident_id db i s e) (Step.acknowledging now by o))
    | inr o ↦ inr (IncidentError.invalid_transition i.status, ground (arith, e, o))
  ]
]

-- Resolving an incident moves it from open or acknowledged to resolved, or raises and changes
-- nothing.
pub resolve-Moves :
    (incident_id now : ℕ) (c : Commit) (by summary : String) (db : Db)
    → Moves incident_id (resolved_row now by summary) db (resolve incident_id now c by summary db)
unfolding resolve resolve_read
resolve-Moves incident_id now c by summary db = elim (Option-cases (get_by_id incident_id db)) [
  | inl e ↦ inr (IncidentError.not_found, ground (arith, e))
  | inr ((i, s), e) ↦ elim (Bool-cases (is_resolved i.status)) [
    | inl o ↦ inr (IncidentError.invalid_transition i.status, ground (arith, e, o))
    | inr o ↦
        let x : resolve incident_id now c by summary db
            ≡ save c (resolved_row now by summary) i s db =
          ground (arith, e, o) in
        rw x (
          save-Moves incident_id c (resolved_row now by summary) i s db
            (get_by_id-row incident_id db i s e) (Step.resolving now by summary o))
  ]
]

-- What a move does to the table: every incident stays or takes a step, with its trigger.
abbrev pub Follows : List IncidentRecord → List IncidentRecord → Type 0
Follows old new =
    (k : ℕ) (i : IncidentRecord)
    → row_at IncidentRecord.id k old ≡ some i
    → (j : IncidentRecord) × (row_at IncidentRecord.id k new ≡ some j) × Steps i j

pub Follows-refl : (rows : List IncidentRecord) → Follows rows rows
Follows-refl rows k i h = (i, h, stay)

pub Follows-trans : (a b c : List IncidentRecord) → Follows a b → Follows b c → Follows a c
Follows-trans a b c f g k i h =
    let (j, e, s) = f k i h in let (l, e', t) = g k j e in (l, e', Steps-append s t)

pub update-Follows :
    (incident_id : ℕ) (f : IncidentRecord → IncidentRecord) (i : IncidentRecord)
    (rows : List IncidentRecord)
    → ((x : IncidentRecord) → (f x).id ≡ x.id)
    → row_at IncidentRecord.id incident_id rows ≡ some i
    → Step i (f i)
    → Follows rows (update_where (λ r. r.id == i.id) f rows)
update-Follows incident_id f i rows keeps h m k j g =
    let u = row_at-update_where IncidentRecord.id (λ r. r.id == i.id) f k rows keeps in
    elim (Bool-cases (j.id == i.id)) [
      | inl e ↦
          let here = key-row_at IncidentRecord.id k rows j g in
          let there = key-row_at IncidentRecord.id incident_id rows i h in
          let same : k ≡ incident_id = sym here ∙ (==→eq j.id i.id e ∙ there) in
          let r : row_at IncidentRecord.id incident_id rows ≡ some j =
            subst (λ n. row_at IncidentRecord.id n rows ≡ some j) same g in
          let p : i ≡ j = ground (arith, r, h) in
          (f j, ground (arith, u, g, e), subst (λ x. Steps x (f x)) p (step m stay))
      | inr e ↦ (j, ground (arith, u, g, e), stay)
    ]
