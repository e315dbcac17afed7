-- ===== src/Warehouses/Nulls.antt =====
-- A null for a column that takes none.
use software_engineering_car.Common.{ℕ, ◌≡◌, true, some, List, arith}
use software_engineering_car.Common.Table.{row_at}
use software_engineering_car.Warehouses.{
  Warehouse, WarehouseUpdate, unset, committed, code_conflict, refused, violates_not_null,
  update_warehouse, update_warehouse_endpoint,
}

-- A PATCH request that leaves the code out and sets a required field to null is answered, where the
-- warehouse exists and the database answers, with 409 and a conflict of the warehouse's own code,
-- and changes nothing.
pub update_warehouse_null :
    (k now : ℕ) (u : WarehouseUpdate) (w : Warehouse) (seen rows : List Warehouse)
    → row_at Warehouse.id k rows ≡ some w
    → u.code ≡ unset
    → violates_not_null u ≡ true
    → update_warehouse_endpoint k now committed u seen rows
      ≡ (refused 409 (code_conflict w.code), rows)
unfolding update_warehouse_endpoint update_warehouse
update_warehouse_null k now u w seen rows h e v = ground (arith, h, e, v)
