-- ===== src/Warehouses/Kept.antt =====
-- Every operation moves the table, and what every sequence of operations keeps.
use mathlib.Core.Path.{subst}
use software_engineering_car.Common.{
  ◌||◌, ℕ, ◌≡◌, refl, sym, ◌∙◌, ap, true, false, some, List, [], ◌∷◌, str_eq, arith, Bool-cases,
  Option-cases, ◌⊎◌, inl, inr, eq_iff,
}
use software_engineering_car.Common.Table.{row_at, has_key, key-row_at}
use software_engineering_car.Common.Append.{has_key-append}
use software_engineering_car.Warehouses.{
  Warehouse, WarehouseCreate, WarehouseUpdate, Commit, committed, failed, find_warehouse_by_code,
  new_warehouse, insert_warehouse, create_warehouse, given_code, err, not_found, code_conflict,
  violates_not_null, flushed, patched, commit_update, is_taken, unless_taken, violates_code,
  has_code, update_warehouse, commit_write, deactivate_warehouse,
}
use software_engineering_car.Warehouses.Codes.{
  Moves, same, inserted, written, IsSound, Moves-IsSound, has_key-write,
}

insert_warehouse-Moves :
    (c : Commit) (w : Warehouse) (rows : List Warehouse) → Moves rows (insert_warehouse c w rows).1
insert_warehouse-Moves committed w rows =
    elim (Bool-cases (has_key Warehouse.id w.id rows || has_code w.code rows)) [
      | inl t ↦ same (rw t refl)
      | inr t ↦ inserted w (rw t refl) (ground (arith, t)) (ground (arith, t))
    ]
insert_warehouse-Moves failed w rows = same refl

pub create_warehouse-Moves :
    (uuid now : ℕ) (c : Commit) (d : WarehouseCreate) (seen rows : List Warehouse)
    → Moves rows (create_warehouse uuid now c d seen rows).1
create_warehouse-Moves uuid now c d seen rows =
    elim (Option-cases (find_warehouse_by_code d.code seen)) [
      | inl h ↦
          let x : create_warehouse uuid now c d seen rows
              ≡ insert_warehouse c (new_warehouse uuid now d) rows =
            unfold create_warehouse in ground (arith, h) in
          rw x (insert_warehouse-Moves c (new_warehouse uuid now d) rows)
      | inr (w, h) ↦
          let x : create_warehouse uuid now c d seen rows ≡ (err (code_conflict d.code), rows) =
            unfold create_warehouse in ground (arith, h) in
          same (ap (λ r. r.1) x)
    ]

-- A code that the constraint lets pass is the row's own, or is not in the table.
free_code :
    (v w : Warehouse) (rows : List Warehouse)
    → violates_code v w rows ≡ false
    → (v.code ≡ w.code) ⊎ (has_code v.code rows ≡ false)
unfolding violates_code
free_code v w rows h = elim (Bool-cases (str_eq v.code w.code)) [
  | inl e ↦ inl ((eq_iff v.code w.code).0 e)
  | inr e ↦ inr (ground (arith, h, e))
]

commit_update-Moves :
    (now : ℕ) (c : Commit) (u : WarehouseUpdate) (w : Warehouse) (rows : List Warehouse)
    → row_at Warehouse.id w.id rows ≡ some w
    → Moves rows (commit_update now c u w rows).1
commit_update-Moves now committed u w rows h =
    elim (Bool-cases (violates_not_null u || violates_code (patched u w) w rows)) [
      | inl v ↦ same (rw v refl)
      | inr v ↦
          written w (flushed now (patched u w) w) (rw v refl) h refl
            (free_code (patched u w) w rows (ground (arith, v)))
    ]
commit_update-Moves now failed u w rows h = same refl

here :
    (k : ℕ) (rows : List Warehouse) (w : Warehouse)
    → row_at Warehouse.id k rows ≡ some w
    → row_at Warehouse.id w.id rows ≡ some w
here k rows w h =
    subst (λ n. row_at Warehouse.id n rows ≡ some w) (sym (key-row_at Warehouse.id k rows w h)) h

pub update_warehouse-Moves :
    (k now : ℕ) (c : Commit) (u : WarehouseUpdate) (seen rows : List Warehouse)
    → Moves rows (update_warehouse k now c u seen rows).1
update_warehouse-Moves k now c u seen rows = elim (Option-cases (row_at Warehouse.id k rows)) [
  | inl h ↦
      let x : update_warehouse k now c u seen rows ≡ (err (not_found k), rows) =
        unfold update_warehouse in ground (arith, h) in
      same (ap (λ r. r.1) x)
  | inr (w, h) ↦
      let x : update_warehouse k now c u seen rows
          ≡ unless_taken (is_taken (given_code u.code) w seen) (commit_update now c u w rows) rows =
        unfold update_warehouse in ground (arith, h) in
      rw x (elim (Option-cases (is_taken (given_code u.code) w seen)) [
        | inl t ↦ rw t (commit_update-Moves now c u w rows (here k rows w h))
        | inr (s, t) ↦ rw t (same refl)
      ])
]

commit_write-Moves :
    (c : Commit) (w v : Warehouse) (rows : List Warehouse)
    → row_at Warehouse.id v.id rows ≡ some w
    → v.created_at ≡ w.created_at
    → v.code ≡ w.code
    → Moves rows (commit_write c v rows).1
commit_write-Moves committed w v rows h t e = written w v refl h t (inl e)
commit_write-Moves failed w v rows h t e = same refl

pub deactivate_warehouse-Moves :
    (k now : ℕ) (c : Commit) (rows : List Warehouse)
    → Moves rows (deactivate_warehouse k now c rows).1
deactivate_warehouse-Moves k now c rows = elim (Option-cases (row_at Warehouse.id k rows)) [
  | inl h ↦
      let x : deactivate_warehouse k now c rows ≡ (err (not_found k), rows) =
        unfold deactivate_warehouse in ground (arith, h) in
      same (ap (λ r. r.1) x)
  | inr (w, h) ↦
      let v = flushed now (record w { is_active = false }) w in
      let x : deactivate_warehouse k now c rows ≡ commit_write c v rows =
        unfold deactivate_warehouse in ground (arith, h) in
      rw x (commit_write-Moves c w v rows (here k rows w h) refl refl)
]

pub data Op : Type 0 where
  create : (uuid now : ℕ) (c : Commit) (d : WarehouseCreate) (seen : List Warehouse) → Op
  update : (k now : ℕ) (c : Commit) (u : WarehouseUpdate) (seen : List Warehouse) → Op
  deactivate : (k now : ℕ) (c : Commit) → Op

unfoldable pub apply : Op → List Warehouse → List Warehouse
apply (Op.create uuid now c d seen) rows = (create_warehouse uuid now c d seen rows).1
apply (Op.update k now c u seen) rows = (update_warehouse k now c u seen rows).1
apply (Op.deactivate k now c) rows = (deactivate_warehouse k now c rows).1

unfoldable pub run : List Op → List Warehouse → List Warehouse
run [] rows = rows
run (op ∷ ops) rows = run ops (apply op rows)

apply-Moves : (op : Op) (rows : List Warehouse) → Moves rows (apply op rows)
unfolding apply
apply-Moves (Op.create uuid now c d seen) rows = create_warehouse-Moves uuid now c d seen rows
apply-Moves (Op.update k now c u seen) rows = update_warehouse-Moves k now c u seen rows
apply-Moves (Op.deactivate k now c) rows = deactivate_warehouse-Moves k now c rows

Moves-kept :
    (k : ℕ) (rows rows' : List Warehouse)
    → Moves rows rows'
    → has_key Warehouse.id k rows ≡ true
    → has_key Warehouse.id k rows' ≡ true
Moves-kept k rows rows' (same e) h = ap (has_key Warehouse.id k) e ∙ h
Moves-kept k rows rows' (inserted w e i c) h =
    ap (has_key Warehouse.id k) e ∙ ground (arith, has_key-append Warehouse.id k rows (w ∷ []), h)
Moves-kept k rows rows' (written w v e i t c) h =
    ap (has_key Warehouse.id k) e ∙ (has_key-write k v rows ∙ h)

-- Every run of creations, updates and deactivations, whatever table the look-up of a code has read
-- in each, keeps ids and codes unique, by the constraints that the writes meet; and every warehouse
-- that is in the table stays in it.
pub run-IsSound_kept :
    (ops : List Op) (rows : List Warehouse)
    → IsSound rows
    → IsSound (run ops rows)
      × ((k : ℕ)
          → has_key Warehouse.id k rows ≡ true
          → has_key Warehouse.id k (run ops rows) ≡ true)
unfolding run
run-IsSound_kept [] rows s = (s, λ k h. h)
run-IsSound_kept (op ∷ ops) rows s =
    let m = apply-Moves op rows in
    let (t, kept) = run-IsSound_kept ops (apply op rows) (Moves-IsSound rows (apply op rows) m s) in
    (t, λ k h. kept k (Moves-kept k rows (apply op rows) m h))
