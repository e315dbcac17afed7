-- ===== src/Warehouses/Tests.antt =====
-- Runs of the warehouse service at concrete inputs.
use software_engineering_car.Common.{
  ℕ, String, ◌≡◌, refl, Bool, true, false, none, some, List, [], ◌∷◌, map,
}
use software_engineering_car.Common.Sorting.{order_by, insert_row}
use software_engineering_car.Common.Table.{row_at, has_key, update_where, select_where}
use software_engineering_car.Warehouses.{
  violates_code, has_code, Warehouse, WarehouseCreate, WarehouseUpdate, unset, null, given,
  committed, code_conflict, refused, violates_not_null, create_warehouse, update_warehouse,
  deactivate_warehouse, update_warehouse_endpoint, list_warehouses, find_warehouse_by_code,
}
use software_engineering_car.Warehouses.Nulls.{update_warehouse_null}
use software_engineering_car.Warehouses.Codes.{IsSound}
use software_engineering_car.Warehouses.Kept.{Op, apply, run, run-IsSound_kept}

abbrev boston : WarehouseCreate
boston = record {
  code = "BOS-01";
  name = "Boston";
  address_line_1 = "1 Pier";
  address_line_2 = none;
  city = "Boston";
  state = "MA";
  postal_code = "02110";
  country_code = "US";
}

abbrev rename : WarehouseUpdate
rename = record {
  code = given "BOS-02";
  name = unset;
  address_line_1 = unset;
  address_line_2 = given "Gate 4";
  city = unset;
  state = unset;
  postal_code = unset;
  country_code = unset;
  is_active = unset;
}

abbrev no_name : WarehouseUpdate
no_name = record rename { code = unset; name = null }

-- The second warehouse may take the code that the first has given up; all look-ups are stale.
abbrev changes : List Op
changes =
    Op.create 1 10 committed boston []
    ∷ Op.update 1 11 committed rename []
    ∷ Op.create 2 12 committed boston []
    ∷ Op.update 2 13 committed rename []
    ∷ Op.deactivate 1 14 committed
    ∷ []

empty-IsSound : IsSound []
empty-IsSound = record { ids = tt; codes = tt }

run-IsSound_kept_example :
    IsSound (run changes [])
    × ((k : ℕ) → has_key Warehouse.id k [] ≡ true → has_key Warehouse.id k (run changes []) ≡ true)
run-IsSound_kept_example = run-IsSound_kept changes [] empty-IsSound

codes_after : map Warehouse.code (run changes []) ≡ "BOS-02" ∷ "BOS-01" ∷ []
unfolding run apply create_warehouse update_warehouse deactivate_warehouse find_warehouse_by_code
    violates_not_null violates_code has_code row_at has_key update_where select_where
codes_after = refl

-- An order that keeps the rows as they are.
abbrev is_first : String → String → Bool
is_first a b = true

active_after :
    map Warehouse.code (list_warehouses is_first false 0 100 (run changes [])) ≡ "BOS-01" ∷ []
unfolding list_warehouses run apply create_warehouse update_warehouse deactivate_warehouse
    find_warehouse_by_code violates_not_null violates_code has_code row_at has_key update_where
    select_where order_by insert_row
active_after = refl

abbrev stored : Warehouse
stored = record {
  id = 1;
  code = "BOS-01";
  name = "Boston";
  address_line_1 = "1 Pier";
  address_line_2 = none;
  city = "Boston";
  state = "MA";
  postal_code = "02110";
  country_code = "US";
  is_active = true;
  created_at = 10;
  updated_at = 10;
}

stored_at : row_at Warehouse.id 1 (stored ∷ []) ≡ some stored
unfolding row_at
stored_at = refl

no_name_violates : violates_not_null no_name ≡ true
unfolding violates_not_null
no_name_violates = refl

update_warehouse_null_example :
    update_warehouse_endpoint 1 20 committed no_name [] (stored ∷ [])
    ≡ (refused 409 (code_conflict "BOS-01"), stored ∷ [])
update_warehouse_null_example =
    update_warehouse_null 1 20 no_name stored [] (stored ∷ []) stored_at refl no_name_violates
