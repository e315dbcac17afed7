-- ===== src/Inventory/Stock/Receive.antt =====
-- A receipt on a sound database: when it succeeds, and what it leaves.
use software_engineering_car.Common.{
  if◌then◌else◌, inl, inr, Bool-cases, ◌≡◌, refl, Bool, true, false, none, some, arith, sym,
}
use software_engineering_car.Common.Int.{leb_ℤ, pos, ◌+ℤ◌, ◌≤ℤ◌, ◌<ℤ◌, int_laws}
use software_engineering_car.Inventory.Model.{
  InventoryBalance, StockMovement, MovementType, Db, StockChangeRequest, product_not_found,
  max_integer, refused_at_commit, valid_balance, valid_movement, reference_reserved_quantity,
  is_reference_movement,
}
use software_engineering_car.Inventory.Transaction.{Result, ok, err}
use software_engineering_car.Inventory.Balances.{
  contains_product, ensure_product_exists, find_balance, get_or_create_balance_for_update,
  insert_if_missing, commit_change,
}
use software_engineering_car.Inventory.Stock.{StockOperationResult, receive_stock}
use software_engineering_car.Inventory.Stock.Rows.{find_balance-key, find_balance-insert, or_empty}
use software_engineering_car.Inventory.Stock.Ledger.{
  IsSound, IsChange, changed, change-IsSound, insert-IsSound,
}

abbrev pub received : StockChangeRequest → InventoryBalance → InventoryBalance
received r b = record b { quantity_on_hand = b.quantity_on_hand +ℤ r.quantity }

abbrev pub receipt_movement : StockChangeRequest → InventoryBalance → StockMovement
receipt_movement r b = record {
  product_id = r.product_id;
  warehouse_id = r.warehouse_id;
  movement_type = MovementType.receipt;
  on_hand_delta = r.quantity;
  reserved_delta = pos 0;
  on_hand_balance_after = b.quantity_on_hand +ℤ r.quantity;
  reserved_balance_after = b.quantity_reserved;
  reference_id = r.reference_id;
  reason = r.reason;
  transfer_id = none;
}

-- The database with a balance for the request, empty if there was none.
abbrev pub with_balance : StockChangeRequest → Db → Db
with_balance r db = record db {
  balances = insert_if_missing r.product_id r.warehouse_id db.balances;
}

abbrev pub balance_for : StockChangeRequest → Db → InventoryBalance
balance_for r db =
    or_empty r.product_id r.warehouse_id (find_balance r.product_id r.warehouse_id db.balances)

abbrev pub receive_outcome :
    StockChangeRequest → Db → InventoryBalance → Bool → Result StockOperationResult × Db
receive_outcome r db b false = (err (product_not_found r.product_id), db)
receive_outcome r db b true =
    if leb_ℤ (b.quantity_on_hand +ℤ r.quantity) max_integer
    then (
      ok (record { balance = received r b; movement = receipt_movement r b }),
      changed (with_balance r db) (received r b) (receipt_movement r b),
    )
    else (err refused_at_commit, db)

balance_for-found :
    (r : StockChangeRequest) (db : Db)
    → find_balance r.product_id r.warehouse_id (with_balance r db).balances
      ≡ some (balance_for r db)
balance_for-found r db =
    ground (
      arith,
      find_balance-insert r.product_id r.warehouse_id r.product_id r.warehouse_id db.balances,
    )

receive-valid :
    (r : StockChangeRequest) (b : InventoryBalance)
    → pos 0 <ℤ r.quantity
    → pos 0 ≤ℤ b.quantity_reserved
    → b.quantity_reserved ≤ℤ b.quantity_on_hand
    → (valid_balance (received r b) ≡ leb_ℤ (b.quantity_on_hand +ℤ r.quantity) max_integer)
      × (valid_movement (receipt_movement r b) ≡ true)
unfolding valid_balance valid_movement
receive-valid r b q h k = (grind int_laws, grind int_laws)

balance_for-within :
    (r : StockChangeRequest) (db : Db)
    → IsSound db
    → (pos 0 ≤ℤ (balance_for r db).quantity_reserved)
      × ((balance_for r db).quantity_reserved ≤ℤ (balance_for r db).quantity_on_hand)
      × ((balance_for r db).quantity_on_hand ≤ℤ max_integer)
balance_for-within r db s = ground (
  arith,
  (insert-IsSound r.product_id r.warehouse_id db s).within r.product_id r.warehouse_id,
  balance_for-found r db,
)

-- On a sound database a receipt of a positive quantity of a known product adds it to what is on
-- hand, in a new balance if there was none, and raises and changes nothing for an unknown one, and
-- where the sum is out of the column's range, which the commit refuses.
pub receive_stock_exact :
    (r : StockChangeRequest) (db : Db)
    → IsSound db
    → pos 0 <ℤ r.quantity
    → receive_stock r db
      ≡ receive_outcome r db (balance_for r db) (contains_product r.product_id db.products)
unfolding receive_stock ensure_product_exists get_or_create_balance_for_update commit_change
receive_stock_exact r db s q =
    let (low, high, _) = balance_for-within r db s in
    ground (arith, balance_for-found r db, receive-valid r (balance_for r db) q low high)

receive-IsChange :
    (r : StockChangeRequest) (db : Db)
    → IsSound db
    → pos 0 <ℤ r.quantity
    → leb_ℤ ((balance_for r db).quantity_on_hand +ℤ r.quantity) max_integer ≡ true
    → IsChange
        (with_balance r db)
        (balance_for r db)
        (received r (balance_for r db))
        (receipt_movement r (balance_for r db))
receive-IsChange r db s q fits =
    let b = balance_for r db in
    let e = balance_for-found r db in
    let (p, w) = find_balance-key r.product_id r.warehouse_id (with_balance r db).balances b e in
    let (low, high, _) = balance_for-within r db s in
    record {
      found = cc (p, w, e);
      same_product = refl;
      same_warehouse = refl;
      of_b_product = sym p;
      of_b_warehouse = sym w;
      on_hand_after = refl;
      reserved_after = omega int_laws;
      nonneg = low;
      covered = omega int_laws;
      narrow = grind int_laws;
      owed = λ reference.
          unfold reference_reserved_quantity is_reference_movement in
          ground (arith, s.references b.product_id b.warehouse_id reference);
    }

-- A receipt keeps the inventory sound.
pub receive_stock-IsSound :
    (r : StockChangeRequest) (db : Db)
    → IsSound db
    → pos 0 <ℤ r.quantity
    → IsSound (receive_stock r db).1
receive_stock-IsSound r db s q =
    rw (receive_stock_exact r db s q) (kept (contains_product r.product_id db.products))
  where
    kept : (known : Bool) → IsSound (receive_outcome r db (balance_for r db) known).1
    kept false = s
    kept true =
        elim (Bool-cases (leb_ℤ ((balance_for r db).quantity_on_hand +ℤ r.quantity) max_integer)) [
          | inl fits ↦ rw fits (
              change-IsSound (insert-IsSound r.product_id r.warehouse_id db s)
                (receive-IsChange r db s q fits))
          | inr over ↦ rw over s
        ]
