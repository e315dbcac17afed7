-- ===== src/Inventory/Stock/Issue.antt =====
-- An issue on a sound database: when it succeeds, and what it leaves.
use software_engineering_car.Common.{
  ◌≡◌, refl, Bool, true, false, Option, none, some, arith, inl, inr, Bool-cases, Option-cases,
  if◌then◌else◌, sym,
}
use software_engineering_car.Common.Int.{pos, ◌-ℤ◌, negate, ◌≤ℤ◌, ◌<ℤ◌, ltb_ℤ, int_laws}
use software_engineering_car.Inventory.Model.{
  max_integer, InventoryBalance, StockMovement, MovementType, Db, StockChangeRequest,
  product_not_found, insufficient_stock, valid_balance, valid_movement, reference_reserved_quantity,
  is_reference_movement,
}
use software_engineering_car.Inventory.Transaction.{Result, ok, err}
use software_engineering_car.Inventory.Balances.{
  contains_product, ensure_product_exists, find_balance, get_balance_for_update, commit_change,
  require_available,
}
use software_engineering_car.Inventory.Stock.{StockOperationResult, issue_stock}
use software_engineering_car.Inventory.Stock.Rows.{find_balance-key}
use software_engineering_car.Inventory.Stock.Ledger.{IsSound, IsChange, changed, change-IsSound}

abbrev pub issued : StockChangeRequest → InventoryBalance → InventoryBalance
issued r b = record b { quantity_on_hand = b.quantity_on_hand -ℤ r.quantity }

abbrev pub issue_movement : StockChangeRequest → InventoryBalance → StockMovement
issue_movement r b = record {
  product_id = r.product_id;
  warehouse_id = r.warehouse_id;
  movement_type = MovementType.issue;
  on_hand_delta = negate r.quantity;
  reserved_delta = pos 0;
  on_hand_balance_after = b.quantity_on_hand -ℤ r.quantity;
  reserved_balance_after = b.quantity_reserved;
  reference_id = r.reference_id;
  reason = r.reason;
  transfer_id = none;
}

-- What an issue does, by the balance that it finds.
abbrev pub issue_outcome :
    StockChangeRequest → Db → Bool → Option InventoryBalance → Result StockOperationResult × Db
issue_outcome r db false o = (err (product_not_found r.product_id), db)
issue_outcome r db true none = (err (insufficient_stock (pos 0) r.quantity), db)
issue_outcome r db true (some b) =
    if ltb_ℤ (b.quantity_on_hand -ℤ b.quantity_reserved) r.quantity
    then (err (insufficient_stock (b.quantity_on_hand -ℤ b.quantity_reserved) r.quantity), db)
    else (
      ok (record { balance = issued r b; movement = issue_movement r b }),
      changed db (issued r b) (issue_movement r b),
    )

issue-valid :
    (r : StockChangeRequest) (b : InventoryBalance)
    → pos 0 <ℤ r.quantity
    → pos 0 ≤ℤ b.quantity_reserved
    → ltb_ℤ (b.quantity_on_hand -ℤ b.quantity_reserved) r.quantity ≡ false
    → b.quantity_on_hand ≤ℤ max_integer
    → (valid_balance (issued r b) ≡ true) × (valid_movement (issue_movement r b) ≡ true)
unfolding valid_balance valid_movement
issue-valid r b q h k n = grind int_laws

-- On a sound database an issue of a positive quantity takes it from what is on hand if the product
-- is known and the available quantity covers it, and raises and changes nothing otherwise; its
-- commit never fails.
pub issue_stock_exact :
    (r : StockChangeRequest) (db : Db)
    → IsSound db
    → pos 0 <ℤ r.quantity
    → issue_stock r db
      ≡ issue_outcome r db
          (contains_product r.product_id db.products)
          (find_balance r.product_id r.warehouse_id db.balances)
unfolding issue_stock ensure_product_exists get_balance_for_update require_available commit_change
issue_stock_exact r db s q =
    elim (Option-cases (find_balance r.product_id r.warehouse_id db.balances)) [
      | inl e ↦ ground arith
      | inr (b, e) ↦ ground (arith, issue-valid r b q, s.within r.product_id r.warehouse_id)
    ]

issue-IsChange :
    (r : StockChangeRequest) (db : Db) (b : InventoryBalance)
    → IsSound db
    → pos 0 <ℤ r.quantity
    → find_balance r.product_id r.warehouse_id db.balances ≡ some b
    → ltb_ℤ (b.quantity_on_hand -ℤ b.quantity_reserved) r.quantity ≡ false
    → IsChange db b (issued r b) (issue_movement r b)
issue-IsChange r db b s q e k =
    let (p, w) = find_balance-key r.product_id r.warehouse_id db.balances b e in
    record {
      found = cc (p, w, e);
      same_product = refl;
      same_warehouse = refl;
      of_b_product = sym p;
      of_b_warehouse = sym w;
      on_hand_after = omega int_laws;
      reserved_after = omega int_laws;
      nonneg = grind (int_laws, s.within r.product_id r.warehouse_id, e);
      covered = grind (int_laws, s.within r.product_id r.warehouse_id, e);
      narrow = grind (int_laws, s.within r.product_id r.warehouse_id, e);
      owed = λ reference.
          unfold reference_reserved_quantity is_reference_movement in
          ground (arith, s.references b.product_id b.warehouse_id reference);
    }

-- An issue keeps the inventory sound.
pub issue_stock-IsSound :
    (r : StockChangeRequest) (db : Db)
    → IsSound db
    → pos 0 <ℤ r.quantity
    → IsSound (issue_stock r db).1
issue_stock-IsSound r db s q = rw (issue_stock_exact r db s q) (
    kept (contains_product r.product_id db.products)
      (find_balance r.product_id r.warehouse_id db.balances) refl)
  where
    kept :
        (known : Bool) (o : Option InventoryBalance)
        → find_balance r.product_id r.warehouse_id db.balances ≡ o
        → IsSound (issue_outcome r db known o).1
    kept false o e = s
    kept true none e = s
    kept true (some b) e =
        elim (Bool-cases (ltb_ℤ (b.quantity_on_hand -ℤ b.quantity_reserved) r.quantity)) [
          | inl short ↦ rw short s
          | inr covered ↦ rw covered (change-IsSound s (issue-IsChange r db b s q e covered))
        ]
