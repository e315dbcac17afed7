-- ===== src/Inventory/Balances.antt =====
-- The statements that the stock operations share (production-warehouse-microservices/services/
-- inventory-service/app/services/stock.py). A commit checks the tables' CHECK constraints. Row locks
-- make each transaction run alone on its balances.
use software_engineering_car.Common.{
  ℕ, String, Bool, false, ◌&&◌, ◌||◌, Option, none, some, List, [], ◌∷◌, ◌==◌, if◌then◌else◌,
}
use software_engineering_car.Common.Int.{ℤ, pos, ◌-ℤ◌, ltb_ℤ, min_ℤ}
use software_engineering_car.Common.Table.{select_where, update_where, scalar}
use software_engineering_car.Inventory.Model.{
  InventoryBalance, StockMovement, StockError, product_not_found, insufficient_stock,
  insufficient_reserved_stock, balance_not_created, refused_at_commit, is_at, valid_balance,
  valid_movement,
}
use software_engineering_car.Inventory.Transaction.{ok, Tx, pure, raise, ◌>>=◌, ◌>>◌, require}

abbrev pub contains_product : ℕ → List ℕ → Bool
contains_product p [] = false
contains_product p (q ∷ qs) = q == p || contains_product p qs

unfoldable pub ensure_product_exists : ℕ → Tx (Unit {0})
ensure_product_exists p db = require (contains_product p db.products) (product_not_found p) db

unfoldable pub find_balance : ℕ → ℕ → List InventoryBalance → Option InventoryBalance
find_balance p w balances = scalar (select_where (is_at p w) balances)

unfoldable pub get_balance_for_update : ℕ → ℕ → Tx (Option InventoryBalance)
get_balance_for_update p w db = (ok (find_balance p w db.balances), db)

abbrev pub empty_balance : ℕ → ℕ → InventoryBalance
empty_balance p w = record {
  product_id = p;
  warehouse_id = w;
  quantity_on_hand = pos 0;
  quantity_reserved = pos 0;
}

-- INSERT ... ON CONFLICT (product_id, warehouse_id) DO NOTHING
unfoldable pub insert_if_missing : ℕ → ℕ → List InventoryBalance → List InventoryBalance
insert_if_missing p w balances = elim (find_balance p w balances) [
  | none ↦ empty_balance p w ∷ balances
  | some b ↦ balances
]

unfoldable pub insert_empty_balance_if_missing : ℕ → ℕ → Tx (Unit {0})
insert_empty_balance_if_missing p w db =
    (ok tt, record db { balances = insert_if_missing p w db.balances })

abbrev pub or_raise : Option InventoryBalance → StockError → Tx InventoryBalance
or_raise none e = raise e
or_raise (some b) e = pure b

unfoldable pub get_or_create_balance_for_update : ℕ → ℕ → Tx InventoryBalance
unfolding insert_empty_balance_if_missing get_balance_for_update
get_or_create_balance_for_update p w = do
  insert_empty_balance_if_missing p w
  balance ← get_balance_for_update p w
  or_raise balance balance_not_created

abbrev pub with_quantities : InventoryBalance → InventoryBalance → InventoryBalance
with_quantities b row = record row {
  quantity_on_hand = b.quantity_on_hand;
  quantity_reserved = b.quantity_reserved;
}

-- UPDATE of the changed columns of a row, which its unique key names.
unfoldable pub save_balance : InventoryBalance → List InventoryBalance → List InventoryBalance
save_balance b = update_where (is_at b.product_id b.warehouse_id) (with_quantities b)

-- `database.add(movement)`, with the changed balance.
unfoldable pub add_change : InventoryBalance → StockMovement → Tx (Unit {0})
add_change b m db =
    (ok tt, record db { balances = save_balance b db.balances; movements = m ∷ db.movements })

-- `database.commit()` of a changed balance and its movement.
unfoldable pub commit_change : InventoryBalance → StockMovement → Tx (Unit {0})
unfolding add_change
commit_change b m = do
  add_change b m
  require (valid_balance b && valid_movement m) refused_at_commit

-- The balance of a request that the available quantity covers.
unfoldable pub require_available : Option InventoryBalance → ℤ → Tx InventoryBalance
require_available none quantity = raise (insufficient_stock (pos 0) quantity)
require_available (some b) quantity =
    let available_quantity = b.quantity_on_hand -ℤ b.quantity_reserved in
    if ltb_ℤ available_quantity quantity
    then raise (insufficient_stock available_quantity quantity)
    else pure b

unfoldable pub require_releasable : Option InventoryBalance → ℤ → ℤ → String → Tx InventoryBalance
require_releasable none reserved quantity reference =
    raise (insufficient_reserved_stock (pos 0) quantity reference)
require_releasable (some b) reserved quantity reference =
    let releasable_quantity = min_ℤ reserved b.quantity_reserved in
    if ltb_ℤ releasable_quantity quantity
    then raise (insufficient_reserved_stock releasable_quantity quantity reference)
    else pure b
