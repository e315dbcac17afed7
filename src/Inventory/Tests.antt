-- ===== src/Inventory/Tests.antt =====
-- Stock requests at concrete inputs, and the theorems at inputs that meet their hypotheses.
use software_engineering_car.Common.{ℕ, String, ◌≡◌, refl, true, none, some, List, [], ◌∷◌, arith}
use software_engineering_car.Common.Int.{pos, ◌+ℤ◌, ◌-ℤ◌}
use software_engineering_car.Common.Table.{select_where, update_where}
use software_engineering_car.Inventory.Model.{
  InventoryBalance, Db, StockChangeRequest, StockOrderRequest, StockTransferRequest, valid_transfer,
  reservation_already_exists, reference_reserved_quantity, is_reference_movement, valid_balance,
  valid_movement,
}
use software_engineering_car.Inventory.Transaction.{ok, err}
use software_engineering_car.Inventory.Balances.{
  contains_product, ensure_product_exists, find_balance, get_balance_for_update,
  get_or_create_balance_for_update, insert_if_missing, commit_change, save_balance,
  require_available,
}
use software_engineering_car.Inventory.Stock.{
  StockOperationResult, receive_stock, reserve_stock, release_stock, transfer_stock,
}
use software_engineering_car.Inventory.Stock.Ledger.{IsSound, changed}
use software_engineering_car.Inventory.Stock.Receive.{receive_stock-IsSound}
use software_engineering_car.Inventory.Stock.Reserve.{reserved_for, reservation_movement}
use software_engineering_car.Inventory.Stock.Transfer.{
  transfer_outcome, destination_for, transfer_stock_exact,
}
use software_engineering_car.Inventory.Stock.RoundTrip.{reserve_twice, release-reserve}
use software_engineering_car.Inventory.Stock.History.{
  StockRequest, receipt, issue, reservation, release, transfer, AllAccepted, serve_all, new_db,
  new_db-IsSound, inventory-IsSound,
}

-- Ten pieces of product 1 arrive in warehouse 5.
abbrev delivery : StockChangeRequest
delivery = record {
  product_id = 1;
  warehouse_id = 5;
  quantity = pos 10;
  reference_id = none;
  reason = none;
}

abbrev sale : StockChangeRequest
sale = record {
  product_id = 1;
  warehouse_id = 5;
  quantity = pos 2;
  reference_id = none;
  reason = some "sale";
}

abbrev order : StockOrderRequest
order = record {
  product_id = 1;
  warehouse_id = 5;
  quantity = pos 4;
  reference_id = "ORD-1";
  reason = none;
}

abbrev move : StockTransferRequest
move = record {
  product_id = 1;
  source_warehouse_id = 5;
  destination_warehouse_id = 6;
  quantity = pos 3;
  reference_id = none;
  reason = none;
}

abbrev day : List StockRequest
day = receipt delivery ∷ reservation order ∷ transfer 900 move ∷ issue sale ∷ release order ∷ []

move-valid : valid_transfer move ≡ true
unfolding valid_transfer
move-valid = refl

day-AllAccepted : AllAccepted day
day-AllAccepted = (omega arith, (omega arith, (move-valid, (omega arith, (omega arith, tt)))))

inventory-IsSound_example : IsSound (serve_all day (new_db (1 ∷ [])))
inventory-IsSound_example = inventory-IsSound (1 ∷ []) day day-AllAccepted

-- The database after the delivery.
abbrev stocked : Db
stocked = (receive_stock delivery (new_db (1 ∷ []))).1

stocked-IsSound : IsSound stocked
stocked-IsSound =
    receive_stock-IsSound delivery (new_db (1 ∷ [])) (new_db-IsSound (1 ∷ [])) (omega arith)

transfer_stock_exact_example :
    transfer_stock 900 move stocked
    ≡ transfer_outcome 900 move stocked
        (destination_for move stocked)
        (contains_product 1 stocked.products)
        (find_balance 1 5 stocked.balances)
transfer_stock_exact_example = transfer_stock_exact 900 move stocked stocked-IsSound move-valid

-- What the reservation of the order answers.
abbrev shelf : InventoryBalance
shelf = record {
  product_id = 1;
  warehouse_id = 5;
  quantity_on_hand = pos 10;
  quantity_reserved = pos 0;
}

abbrev reservation_made : StockOperationResult
reservation_made = record {
  balance = reserved_for order shelf;
  movement = reservation_movement order shelf;
}

abbrev reserved_db : Db
reserved_db = changed stocked (reserved_for order shelf) (reservation_movement order shelf)

order_reserved : reserve_stock order stocked ≡ (ok reservation_made, reserved_db)
unfolding reserve_stock receive_stock ensure_product_exists get_balance_for_update
    get_or_create_balance_for_update insert_if_missing find_balance commit_change save_balance
    require_available reference_reserved_quantity is_reference_movement valid_balance valid_movement
    select_where update_where ◌+ℤ◌ ◌-ℤ◌
order_reserved = refl

reserve_twice_example :
    reserve_stock (record order { quantity = pos 1 }) reserved_db
    ≡ (err (reservation_already_exists "ORD-1" (pos 4)), reserved_db)
reserve_twice_example =
    reserve_twice order (pos 1) stocked reserved_db reservation_made stocked-IsSound (omega arith)
      (omega arith) order_reserved

release-reserve_example :
    (y : StockOperationResult) × (db'' : Db) × (release_stock order reserved_db ≡ (ok y, db''))
    × ((p w : ℕ) → find_balance p w db''.balances ≡ find_balance p w stocked.balances)
    × ((p w : ℕ) (reference : String)
        → reference_reserved_quantity p w reference db''.movements
          ≡ reference_reserved_quantity p w reference stocked.movements)
release-reserve_example =
    release-reserve order stocked reserved_db reservation_made stocked-IsSound (omega arith)
      order_reserved
