-- ===== src/Inventory/Stock/Reserve.antt =====
-- A reservation on a sound database: when it succeeds, and what it leaves.
use software_engineering_car.Common.{
  ◌≡◌, refl, Bool, true, false, Option, none, some, arith, eq_iff, inl, inr, Bool-cases,
  Option-cases, if◌then◌else◌, sym,
}
use software_engineering_car.Common.Int.{ℤ, pos, ◌+ℤ◌, ◌-ℤ◌, ◌≤ℤ◌, ◌<ℤ◌, ltb_ℤ, int_laws}
use software_engineering_car.Inventory.Model.{
  max_integer, InventoryBalance, StockMovement, MovementType, Db, StockOrderRequest,
  product_not_found, insufficient_stock, reservation_already_exists, valid_balance, valid_movement,
  reference_reserved_quantity, is_reference_movement,
}
use software_engineering_car.Inventory.Transaction.{Result, ok, err}
use software_engineering_car.Inventory.Balances.{
  contains_product, ensure_product_exists, find_balance, get_balance_for_update, commit_change,
  require_available,
}
use software_engineering_car.Inventory.Stock.{StockOperationResult, reserve_stock}
use software_engineering_car.Inventory.Stock.Rows.{find_balance-key}
use software_engineering_car.Inventory.Stock.Ledger.{IsSound, IsChange, changed, change-IsSound}

abbrev pub reserved_for : StockOrderRequest → InventoryBalance → InventoryBalance
reserved_for r b = record b { quantity_reserved = b.quantity_reserved +ℤ r.quantity }

abbrev pub reservation_movement : StockOrderRequest → InventoryBalance → StockMovement
reservation_movement r b = record {
  product_id = r.product_id;
  warehouse_id = r.warehouse_id;
  movement_type = MovementType.reservation;
  on_hand_delta = pos 0;
  reserved_delta = r.quantity;
  on_hand_balance_after = b.quantity_on_hand;
  reserved_balance_after = b.quantity_reserved +ℤ r.quantity;
  reference_id = some r.reference_id;
  reason = r.reason;
  transfer_id = none;
}

-- What the order that a request names has reserved and not released.
abbrev pub outstanding : StockOrderRequest → Db → ℤ
outstanding r db =
    reference_reserved_quantity r.product_id r.warehouse_id r.reference_id db.movements

-- What a reservation does, by the balance that it finds.
abbrev pub reserve_outcome :
    StockOrderRequest → Db → Bool → Option InventoryBalance → Result StockOperationResult × Db
reserve_outcome r db false o = (err (product_not_found r.product_id), db)
reserve_outcome r db true none =
    if ltb_ℤ (pos 0) (outstanding r db)
    then (err (reservation_already_exists r.reference_id (outstanding r db)), db)
    else (err (insufficient_stock (pos 0) r.quantity), db)
reserve_outcome r db true (some b) =
    if ltb_ℤ (pos 0) (outstanding r db)
    then (err (reservation_already_exists r.reference_id (outstanding r db)), db)
    else if ltb_ℤ (b.quantity_on_hand -ℤ b.quantity_reserved) r.quantity
    then (err (insufficient_stock (b.quantity_on_hand -ℤ b.quantity_reserved) r.quantity), db)
    else (
      ok (record { balance = reserved_for r b; movement = reservation_movement r b }),
      changed db (reserved_for r b) (reservation_movement r b),
    )

reserve-valid :
    (r : StockOrderRequest) (b : InventoryBalance)
    → pos 0 <ℤ r.quantity
    → pos 0 ≤ℤ b.quantity_reserved
    → b.quantity_reserved ≤ℤ b.quantity_on_hand
    → ltb_ℤ (b.quantity_on_hand -ℤ b.quantity_reserved) r.quantity ≡ false
    → b.quantity_on_hand ≤ℤ max_integer
    → (valid_balance (reserved_for r b) ≡ true) × (valid_movement (reservation_movement r b) ≡ true)
unfolding valid_balance valid_movement
reserve-valid r b q h c k n = grind int_laws

-- On a sound database a reservation of a positive quantity of a known product adds it to what is
-- reserved if its order holds nothing there yet and the available quantity covers it, and raises
-- and changes nothing otherwise; its commit never fails.
pub reserve_stock_exact :
    (r : StockOrderRequest) (db : Db)
    → IsSound db
    → pos 0 <ℤ r.quantity
    → reserve_stock r db
      ≡ reserve_outcome r db
          (contains_product r.product_id db.products)
          (find_balance r.product_id r.warehouse_id db.balances)
unfolding reserve_stock ensure_product_exists get_balance_for_update require_available commit_change
reserve_stock_exact r db s q =
    elim (Option-cases (find_balance r.product_id r.warehouse_id db.balances)) [
      | inl e ↦ ground arith
      | inr (b, e) ↦ ground (arith, reserve-valid r b q, s.within r.product_id r.warehouse_id)
    ]

pub reserve-IsChange :
    (r : StockOrderRequest) (db : Db) (b : InventoryBalance)
    → IsSound db
    → pos 0 <ℤ r.quantity
    → find_balance r.product_id r.warehouse_id db.balances ≡ some b
    → ltb_ℤ (b.quantity_on_hand -ℤ b.quantity_reserved) r.quantity ≡ false
    → IsChange db b (reserved_for r b) (reservation_movement r b)
reserve-IsChange r db b s q e k =
    let (p, w) = find_balance-key r.product_id r.warehouse_id db.balances b e in
    record {
      found = cc (p, w, e);
      same_product = refl;
      same_warehouse = refl;
      of_b_product = sym p;
      of_b_warehouse = sym w;
      on_hand_after = omega int_laws;
      reserved_after = refl;
      nonneg = grind (int_laws, s.within r.product_id r.warehouse_id, e);
      covered = grind (int_laws, s.within r.product_id r.warehouse_id, e);
      narrow = grind (int_laws, s.within r.product_id r.warehouse_id, e);
      owed = λ reference.
          unfold reference_reserved_quantity is_reference_movement in
          grind (
            int_laws,
            s.references b.product_id b.warehouse_id reference,
            s.references r.product_id r.warehouse_id r.reference_id,
            eq_iff r.reference_id reference,
          );
    }

-- A reservation keeps the inventory sound.
pub reserve_stock-IsSound :
    (r : StockOrderRequest) (db : Db)
    → IsSound db
    → pos 0 <ℤ r.quantity
    → IsSound (reserve_stock r db).1
reserve_stock-IsSound r db s q = rw (reserve_stock_exact r db s q) (
    kept (contains_product r.product_id db.products)
      (find_balance r.product_id r.warehouse_id db.balances) refl)
  where
    kept :
        (known : Bool) (o : Option InventoryBalance)
        → find_balance r.product_id r.warehouse_id db.balances ≡ o
        → IsSound (reserve_outcome r db known o).1
    kept false o e = s
    kept true none e = elim (Bool-cases (ltb_ℤ (pos 0) (outstanding r db))) [
      | inl held ↦ rw held s
      | inr free ↦ rw free s
    ]
    kept true (some b) e = elim (Bool-cases (ltb_ℤ (pos 0) (outstanding r db))) [
      | inl held ↦ rw held s
      | inr free ↦
          elim (Bool-cases (ltb_ℤ (b.quantity_on_hand -ℤ b.quantity_reserved) r.quantity)) [
            | inl short ↦ rw (free, short) s
            | inr covered ↦
                rw (free, covered) (change-IsSound s (reserve-IsChange r db b s q e covered))
          ]
    ]
