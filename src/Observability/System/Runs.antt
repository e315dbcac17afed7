-- ===== src/Observability/System/Runs.antt =====
-- What every sequence of operations keeps.
use software_engineering_car.Common.{
  ℕ, ◌≡◌, refl, sym, ap, ◌∙◌, true, false, some, List, [], ◌∷◌, arith,
}
use mathlib.Core.Bool.{false≢true}
use software_engineering_car.Common.Table.{row_at}
use software_engineering_car.Observability.Model.{
  IncidentRecord, is_resolved, is_open, IncidentStatus,
}
use software_engineering_car.Observability.Store.{Db}
use software_engineering_car.Observability.Detection.{Python}
use software_engineering_car.Observability.Incidents.{acknowledged_row, resolved_row}
use software_engineering_car.Observability.Incidents.Transitions.{
  Step, Steps, stay, step, acknowledge-Moves, resolve-Moves,
}
use software_engineering_car.Observability.System.{Op, apply, run}
use software_engineering_car.Observability.System.Advance.{
  IsConsistent, Advances, Advances-refl, Advances-trans, register-Advances, ingest-Advances,
  ingest_trace-Advances, moved-Advances, correlate-Advances,
}

apply-Advances : (py : Python) (op : Op) (db : Db) → Advances db (apply py op db)
unfolding apply
apply-Advances py (Op.register uuid c d) db = register-Advances uuid c d db
apply-Advances py (Op.ingest_telemetry uuid now c items) db = ingest-Advances py uuid now c items db
apply-Advances py (Op.ingest_trace uuid now c spans) db = ingest_trace-Advances uuid now c spans db
apply-Advances py (Op.acknowledge k now c by) db =
    moved-Advances k (acknowledged_row now by) db _ (λ r. refl) (λ r. refl)
      (acknowledge-Moves k now c by db)
apply-Advances py (Op.resolve k now c by summary) db =
    moved-Advances k (resolved_row now by summary) db _ (λ r. refl) (λ r. refl)
      (resolve-Moves k now c by summary db)
apply-Advances py (Op.correlate uuid ended_at created_at c q) db =
    correlate-Advances uuid ended_at created_at c q db

run-Advances : (py : Python) (ops : List Op) (db : Db) → Advances db (run py ops db)
unfolding run
run-Advances py [] db = Advances-refl db
run-Advances py (op ∷ ops) db =
    Advances-trans db (apply py op db) (run py ops (apply py op db)) (apply-Advances py op db)
      (run-Advances py ops (apply py op db))

-- Every run of operations that follow one another keeps the tables consistent: the incidents are
-- those of the critical anomalies, one for each and in their order, and no two spans of a trace have
-- the same id.
pub run-IsConsistent :
    (py : Python) (ops : List Op) (db : Db) → IsConsistent db → IsConsistent (run py ops db)
run-IsConsistent py ops db c = (run-Advances py ops db).keeps c

-- In every run of operations that follow one another, an incident stays in the table, and its row
-- changes only by steps that set the status, the time and the names and keep all other columns: to
-- acknowledged from open, and to resolved from a status that is not resolved.
pub run-Steps :
    (py : Python) (ops : List Op) (db : Db) (k : ℕ) (i : IncidentRecord)
    → row_at IncidentRecord.id k db.incidents ≡ some i
    → (j : IncidentRecord) × (row_at IncidentRecord.id k (run py ops db).incidents ≡ some j)
      × Steps i j
run-Steps py ops db k i h = (run-Advances py ops db).follows k i h

open_unresolved : (s : IncidentStatus) → is_open s ≡ true → is_resolved s ≡ false
open_unresolved s h = ground (arith, h)

resolved-Steps : (i j : IncidentRecord) → Steps i j → is_resolved i.status ≡ true → j ≡ i
resolved-Steps i j stay h = refl
resolved-Steps i j (step (Step.acknowledging now by o) r) h =
    absurd (false≢true (sym (open_unresolved i.status o) ∙ h))
resolved-Steps i j (step (Step.resolving now by summary o) r) h = absurd (false≢true (sym o ∙ h))

-- In every run a resolved incident stays exactly as it is.
pub run_resolved :
    (py : Python) (ops : List Op) (db : Db) (k : ℕ) (i : IncidentRecord)
    → row_at IncidentRecord.id k db.incidents ≡ some i
    → is_resolved i.status ≡ true
    → row_at IncidentRecord.id k (run py ops db).incidents ≡ some i
run_resolved py ops db k i h r =
    let (j, e, s) = run-Steps py ops db k i h in e ∙ ap some (resolved-Steps i j s r)
