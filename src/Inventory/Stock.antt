-- ===== src/Inventory/Stock.antt =====
-- The stock operations (production-warehouse-microservices/services/inventory-service/app/services/
-- stock.py), each one transaction. `transfer_id` is what `uuid4()` returns.
pub mod Rows
pub mod Ledger
pub mod Receive
pub mod Issue
pub mod Reserve
pub mod Release
pub mod Locks
pub mod RoundTrip
pub mod Transfer
pub mod History
use software_engineering_car.Common.{
  ℕ, String, Bool, not, ◌&&◌, ◌||◌, Option, none, some, List, [], ◌∷◌, map, ◌==◌, leb,
}
use software_engineering_car.Common.Int.{ℤ, pos, ◌+ℤ◌, ◌-ℤ◌, negate, ltb_ℤ}
use software_engineering_car.Common.Sorting.{order_by}
use software_engineering_car.Common.Table.{select_where, row_at}
use software_engineering_car.Inventory.Model.{
  InventoryBalance, StockMovement, MovementType, Db, StockChangeRequest, StockOrderRequest,
  StockTransferRequest, reservation_already_exists, balance_not_created, refused_at_commit,
  valid_balance, valid_movement, reference_reserved_quantity,
}
use software_engineering_car.Inventory.Transaction.{
  Result, ok, err, Tx, pure, raise, atomic, ◌>>=◌, ◌>>◌, require,
}
use software_engineering_car.Inventory.Balances.{
  ensure_product_exists, get_balance_for_update, get_or_create_balance_for_update,
  insert_empty_balance_if_missing, add_change, commit_change, require_available, require_releasable,
  or_raise,
}

pub record StockOperationResult : Type 0 where
  pub balance : InventoryBalance
  pub movement : StockMovement

pub record StockTransferResult : Type 0 where
  pub transfer_id : ℕ
  pub source_balance : InventoryBalance
  pub destination_balance : InventoryBalance
  pub outbound_movement : StockMovement
  pub inbound_movement : StockMovement

unfoldable pub receive_body : StockChangeRequest → Tx StockOperationResult
receive_body r = do
  ensure_product_exists r.product_id
  balance ← get_or_create_balance_for_update r.product_id r.warehouse_id
  let received : InventoryBalance = record balance {
    quantity_on_hand = balance.quantity_on_hand +ℤ r.quantity;
  }
  let movement : StockMovement = record {
    product_id = r.product_id;
    warehouse_id = r.warehouse_id;
    movement_type = MovementType.receipt;
    on_hand_delta = r.quantity;
    reserved_delta = pos 0;
    on_hand_balance_after = received.quantity_on_hand;
    reserved_balance_after = received.quantity_reserved;
    reference_id = r.reference_id;
    reason = r.reason;
    transfer_id = none;
  }
  commit_change received movement
  pure (record { balance = received; movement = movement })

unfoldable pub receive_stock : StockChangeRequest → Tx StockOperationResult
unfolding receive_body
receive_stock r = atomic (receive_body r)

unfoldable pub issue_body : StockChangeRequest → Tx StockOperationResult
issue_body r = do
  ensure_product_exists r.product_id
  found ← get_balance_for_update r.product_id r.warehouse_id
  balance ← require_available found r.quantity
  let issued : InventoryBalance = record balance {
    quantity_on_hand = balance.quantity_on_hand -ℤ r.quantity;
  }
  let movement : StockMovement = record {
    product_id = r.product_id;
    warehouse_id = r.warehouse_id;
    movement_type = MovementType.issue;
    on_hand_delta = negate r.quantity;
    reserved_delta = pos 0;
    on_hand_balance_after = issued.quantity_on_hand;
    reserved_balance_after = issued.quantity_reserved;
    reference_id = r.reference_id;
    reason = r.reason;
    transfer_id = none;
  }
  commit_change issued movement
  pure (record { balance = issued; movement = movement })

unfoldable pub issue_stock : StockChangeRequest → Tx StockOperationResult
unfolding issue_body
issue_stock r = atomic (issue_body r)

-- `_get_reference_reserved_quantity` for the order that a request names.
unfoldable pub get_reference_reserved_quantity : StockOrderRequest → Tx ℤ
get_reference_reserved_quantity r db =
    (ok (reference_reserved_quantity r.product_id r.warehouse_id r.reference_id db.movements), db)

abbrev pub raise_if_reserved : StockOrderRequest → ℤ → Tx (Unit {0})
raise_if_reserved r reserved =
    require (not (ltb_ℤ (pos 0) reserved)) (reservation_already_exists r.reference_id reserved)

unfoldable pub reserve_body : StockOrderRequest → Tx StockOperationResult
unfolding get_reference_reserved_quantity
reserve_body r = do
  ensure_product_exists r.product_id
  found ← get_balance_for_update r.product_id r.warehouse_id
  reserved_for_reference ← get_reference_reserved_quantity r
  raise_if_reserved r reserved_for_reference
  balance ← require_available found r.quantity
  let reserved : InventoryBalance = record balance {
    quantity_reserved = balance.quantity_reserved +ℤ r.quantity;
  }
  let movement : StockMovement = record {
    product_id = r.product_id;
    warehouse_id = r.warehouse_id;
    movement_type = MovementType.reservation;
    on_hand_delta = pos 0;
    reserved_delta = r.quantity;
    on_hand_balance_after = reserved.quantity_on_hand;
    reserved_balance_after = reserved.quantity_reserved;
    reference_id = some r.reference_id;
    reason = r.reason;
    transfer_id = none;
  }
  commit_change reserved movement
  pure (record { balance = reserved; movement = movement })

unfoldable pub reserve_stock : StockOrderRequest → Tx StockOperationResult
unfolding reserve_body
reserve_stock r = atomic (reserve_body r)

unfoldable pub release_body : StockOrderRequest → Tx StockOperationResult
unfolding get_reference_reserved_quantity
release_body r = do
  ensure_product_exists r.product_id
  found ← get_balance_for_update r.product_id r.warehouse_id
  reserved_for_reference ← get_reference_reserved_quantity r
  balance ← require_releasable found reserved_for_reference r.quantity r.reference_id
  let released : InventoryBalance = record balance {
    quantity_reserved = balance.quantity_reserved -ℤ r.quantity;
  }
  let movement : StockMovement = record {
    product_id = r.product_id;
    warehouse_id = r.warehouse_id;
    movement_type = MovementType.release;
    on_hand_delta = pos 0;
    reserved_delta = negate r.quantity;
    on_hand_balance_after = released.quantity_on_hand;
    reserved_balance_after = released.quantity_reserved;
    reference_id = some r.reference_id;
    reason = r.reason;
    transfer_id = none;
  }
  commit_change released movement
  pure (record { balance = released; movement = movement })

unfoldable pub release_stock : StockOrderRequest → Tx StockOperationResult
unfolding release_body
release_stock r = atomic (release_body r)

abbrev pub warehouse_of : InventoryBalance → ℕ
warehouse_of b = b.warehouse_id

-- The rows of both warehouses, in the order in which their locks are taken.
unfoldable pub locked_balances : ℕ → ℕ → ℕ → List InventoryBalance → List InventoryBalance
locked_balances p source destination balances =
    order_by (λ a b. leb a.warehouse_id b.warehouse_id)
      (select_where
        (λ b. b.product_id == p && (b.warehouse_id == source || b.warehouse_id == destination))
        balances)

unfoldable pub get_transfer_balances_for_update :
    ℕ → ℕ → ℕ → Tx (Option InventoryBalance × InventoryBalance)
get_transfer_balances_for_update p source destination = do
  insert_empty_balance_if_missing p destination
  balances ← λ db. (ok (locked_balances p source destination db.balances), db)
  destination_balance ← or_raise (row_at warehouse_of destination balances) balance_not_created
  pure (row_at warehouse_of source balances, destination_balance)

unfoldable pub transfer_body : ℕ → StockTransferRequest → Tx StockTransferResult
transfer_body new_transfer_id r = do
  ensure_product_exists r.product_id
  (found, destination_balance) ←
      get_transfer_balances_for_update r.product_id r.source_warehouse_id r.destination_warehouse_id
  source_balance ← require_available found r.quantity
  let sent : InventoryBalance = record source_balance {
    quantity_on_hand = source_balance.quantity_on_hand -ℤ r.quantity;
  }
  let arrived : InventoryBalance = record destination_balance {
    quantity_on_hand = destination_balance.quantity_on_hand +ℤ r.quantity;
  }
  let outbound : StockMovement = record {
    product_id = r.product_id;
    warehouse_id = r.source_warehouse_id;
    movement_type = MovementType.transfer_out;
    on_hand_delta = negate r.quantity;
    reserved_delta = pos 0;
    on_hand_balance_after = sent.quantity_on_hand;
    reserved_balance_after = sent.quantity_reserved;
    reference_id = r.reference_id;
    reason = r.reason;
    transfer_id = some new_transfer_id;
  }
  let inbound : StockMovement = record {
    product_id = r.product_id;
    warehouse_id = r.destination_warehouse_id;
    movement_type = MovementType.transfer_in;
    on_hand_delta = r.quantity;
    reserved_delta = pos 0;
    on_hand_balance_after = arrived.quantity_on_hand;
    reserved_balance_after = arrived.quantity_reserved;
    reference_id = r.reference_id;
    reason = r.reason;
    transfer_id = some new_transfer_id;
  }
  add_change sent outbound
  add_change arrived inbound
  require
      (valid_balance sent
        && valid_balance arrived
        && valid_movement outbound
        && valid_movement inbound)
      refused_at_commit
  pure (record {
    transfer_id = new_transfer_id;
    source_balance = sent;
    destination_balance = arrived;
    outbound_movement = outbound;
    inbound_movement = inbound;
  })

unfoldable pub transfer_stock : ℕ → StockTransferRequest → Tx StockTransferResult
unfolding transfer_body
transfer_stock new_transfer_id r = atomic (transfer_body new_transfer_id r)
