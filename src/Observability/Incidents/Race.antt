-- ===== src/Observability/Incidents/Race.antt =====
-- Two requests on one incident at a time.
use software_engineering_car.Common.{
  ℕ, String, ◌≡◌, refl, ◌∙◌, true, some, List, ◌==◌, arith, ==_refl,
}
use software_engineering_car.Common.Table.{row_at, update_where, row_at-update_where}
use software_engineering_car.Observability.Model.{
  IncidentStatus, is_open, IncidentRecord, MonitoredService,
}
use software_engineering_car.Observability.Store.{Db, committed}
use software_engineering_car.Observability.Incidents.{
  get_by_id, acknowledge_read, resolve_read, resolve, acknowledged_row, resolved_row, save,
}
use software_engineering_car.Observability.Incidents.Transitions.{get_by_id-row}

written :
    (k : ℕ) (f : IncidentRecord → IncidentRecord) (i : IncidentRecord) (rows : List IncidentRecord)
    → ((x : IncidentRecord) → (f x).id ≡ x.id)
    → row_at IncidentRecord.id k rows ≡ some i
    → row_at IncidentRecord.id k (update_where (λ r. r.id == i.id) f rows) ≡ some (f i)
written k f i rows keeps h =
    row_at-update_where IncidentRecord.id (λ r. r.id == i.id) f k rows keeps
    ∙ ground (arith, h, ==_refl i.id)

-- An acknowledgement that read an open incident before another request's resolution of it was
-- committed, and that commits next, takes the resolved incident back to acknowledged; the columns of
-- the resolution stay.
pub acknowledge-resolve_overwrites :
    (k now later : ℕ) (by by' summary : String) (db : Db) (i : IncidentRecord)
    (s : MonitoredService)
    → get_by_id k db ≡ some (i, s)
    → is_open i.status ≡ true
    → row_at IncidentRecord.id k
        (acknowledge_read db k later committed by'
          (resolve k now committed by summary db).1).1.incidents
      ≡ some (record i {
        status = IncidentStatus.acknowledged;
        acknowledged_at = some later;
        acknowledged_by = some by';
        resolved_at = some now;
        resolved_by = some by;
        resolution_summary = some summary;
      })
acknowledge-resolve_overwrites k now later by by' summary db i s h o =
    let first : resolve k now committed by summary db
        ≡ save committed (resolved_row now by summary) i s db =
      unfold resolve resolve_read in ground (arith, h, o) in
    let db' = (save committed (resolved_row now by summary) i s db).1 in
    let next : acknowledge_read db k later committed by' db'
        ≡ save committed (acknowledged_row later by') i s db' =
      unfold acknowledge_read in ground (arith, h, o) in
    rw (first, next)
      (written k (acknowledged_row later by') (resolved_row now by summary i) db'.incidents
        (λ x. refl)
        (written k (resolved_row now by summary) i db.incidents (λ x. refl)
          (get_by_id-row k db i s h)))
