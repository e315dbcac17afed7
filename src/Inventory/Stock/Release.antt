-- ===== src/Inventory/Stock/Release.antt =====
-- A release on a sound database: when it succeeds, and what it leaves.
use software_engineering_car.Common.{
  ◌≡◌, refl, Bool, true, false, Option, none, some, arith, eq_iff, inl, inr, Bool-cases,
  Option-cases, if◌then◌else◌, sym,
}
use software_engineering_car.Common.Int.{ℤ, pos, ◌-ℤ◌, negate, ◌≤ℤ◌, ◌<ℤ◌, ltb_ℤ, min_ℤ, int_laws}
use software_engineering_car.Inventory.Model.{
  max_integer, InventoryBalance, StockMovement, MovementType, Db, StockOrderRequest,
  product_not_found, insufficient_reserved_stock, valid_balance, valid_movement,
  reference_reserved_quantity, is_reference_movement,
}
use software_engineering_car.Inventory.Transaction.{Result, ok, err}
use software_engineering_car.Inventory.Balances.{
  contains_product, ensure_product_exists, find_balance, get_balance_for_update, commit_change,
  require_releasable,
}
use software_engineering_car.Inventory.Stock.{StockOperationResult, release_stock}
use software_engineering_car.Inventory.Stock.Rows.{find_balance-key}
use software_engineering_car.Inventory.Stock.Ledger.{IsSound, IsChange, changed, change-IsSound}
use software_engineering_car.Inventory.Stock.Reserve.{outstanding}

abbrev pub released_for : StockOrderRequest → InventoryBalance → InventoryBalance
released_for r b = record b { quantity_reserved = b.quantity_reserved -ℤ r.quantity }

abbrev pub release_movement : StockOrderRequest → InventoryBalance → StockMovement
release_movement r b = record {
  product_id = r.product_id;
  warehouse_id = r.warehouse_id;
  movement_type = MovementType.release;
  on_hand_delta = pos 0;
  reserved_delta = negate r.quantity;
  on_hand_balance_after = b.quantity_on_hand;
  reserved_balance_after = b.quantity_reserved -ℤ r.quantity;
  reference_id = some r.reference_id;
  reason = r.reason;
  transfer_id = none;
}

-- What a release does, by the balance that it finds.
abbrev pub release_outcome :
    StockOrderRequest → Db → Bool → Option InventoryBalance → Result StockOperationResult × Db
release_outcome r db false o = (err (product_not_found r.product_id), db)
release_outcome r db true none =
    (err (insufficient_reserved_stock (pos 0) r.quantity r.reference_id), db)
release_outcome r db true (some b) =
    if ltb_ℤ (min_ℤ (outstanding r db) b.quantity_reserved) r.quantity
    then (
      err (
          insufficient_reserved_stock (min_ℤ (outstanding r db) b.quantity_reserved) r.quantity
            r.reference_id),
      db,
    )
    else (
      ok (record { balance = released_for r b; movement = release_movement r b }),
      changed db (released_for r b) (release_movement r b),
    )

release-valid :
    (r : StockOrderRequest) (held : ℤ) (b : InventoryBalance)
    → pos 0 <ℤ r.quantity
    → pos 0 ≤ℤ b.quantity_reserved
    → b.quantity_reserved ≤ℤ b.quantity_on_hand
    → ltb_ℤ (min_ℤ held b.quantity_reserved) r.quantity ≡ false
    → b.quantity_on_hand ≤ℤ max_integer
    → (valid_balance (released_for r b) ≡ true) × (valid_movement (release_movement r b) ≡ true)
unfolding valid_balance valid_movement
release-valid r held b q h c k n = grind int_laws

-- On a sound database a release of a positive quantity of a known product takes it from what is
-- reserved if its order holds that much there, and raises and changes nothing otherwise; its commit
-- never fails.
pub release_stock_exact :
    (r : StockOrderRequest) (db : Db)
    → IsSound db
    → pos 0 <ℤ r.quantity
    → release_stock r db
      ≡ release_outcome r db
          (contains_product r.product_id db.products)
          (find_balance r.product_id r.warehouse_id db.balances)
unfolding release_stock ensure_product_exists get_balance_for_update require_releasable
    commit_change
release_stock_exact r db s q =
    elim (Option-cases (find_balance r.product_id r.warehouse_id db.balances)) [
      | inl e ↦ ground arith
      | inr (b, e) ↦
          ground
            (arith, release-valid r (outstanding r db) b q, s.within r.product_id r.warehouse_id)
    ]

pub release-IsChange :
    (r : StockOrderRequest) (db : Db) (b : InventoryBalance)
    → IsSound db
    → pos 0 <ℤ r.quantity
    → find_balance r.product_id r.warehouse_id db.balances ≡ some b
    → ltb_ℤ (min_ℤ (outstanding r db) b.quantity_reserved) r.quantity ≡ false
    → IsChange db b (released_for r b) (release_movement r b)
release-IsChange r db b s q e k =
    let (p, w) = find_balance-key r.product_id r.warehouse_id db.balances b e in
    record {
      found = cc (p, w, e);
      same_product = refl;
      same_warehouse = refl;
      of_b_product = sym p;
      of_b_warehouse = sym w;
      on_hand_after = omega int_laws;
      reserved_after = omega int_laws;
      nonneg = grind (int_laws, s.within r.product_id r.warehouse_id, e);
      covered = grind (int_laws, s.within r.product_id r.warehouse_id, e);
      narrow = grind (int_laws, s.within r.product_id r.warehouse_id, e);
      owed = λ reference.
          unfold reference_reserved_quantity is_reference_movement in
          grind (
            int_laws,
            s.references b.product_id b.warehouse_id reference,
            s.references r.product_id r.warehouse_id r.reference_id,
            eq_iff r.reference_id reference,
          );
    }

-- A release keeps the inventory sound.
pub release_stock-IsSound :
    (r : StockOrderRequest) (db : Db)
    → IsSound db
    → pos 0 <ℤ r.quantity
    → IsSound (release_stock r db).1
release_stock-IsSound r db s q = rw (release_stock_exact r db s q) (
    kept (contains_product r.product_id db.products)
      (find_balance r.product_id r.warehouse_id db.balances) refl)
  where
    kept :
        (known : Bool) (o : Option InventoryBalance)
        → find_balance r.product_id r.warehouse_id db.balances ≡ o
        → IsSound (release_outcome r db known o).1
    kept false o e = s
    kept true none e = s
    kept true (some b) e =
        elim (Bool-cases (ltb_ℤ (min_ℤ (outstanding r db) b.quantity_reserved) r.quantity)) [
          | inl short ↦ rw short s
          | inr enough ↦ rw enough (change-IsSound s (release-IsChange r db b s q e enough))
        ]
