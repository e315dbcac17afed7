-- ===== src/Inventory/Stock/Transfer.antt =====
-- A transfer on a sound database: when it succeeds, and what it leaves in both warehouses.
use software_engineering_car.Common.{
  ℕ, ◌≡◌, refl, Bool, true, false, ◌≢◌, Option, none, some, arith, inl, inr, Bool-cases,
  Option-cases, not, if◌then◌else◌, sym, ◌∙◌,
}
use software_engineering_car.Common.Int.{pos, ◌+ℤ◌, ◌-ℤ◌, negate, ◌≤ℤ◌, ◌<ℤ◌, ltb_ℤ, int_laws}
use software_engineering_car.Inventory.Model.{
  InventoryBalance, StockMovement, MovementType, Db, StockTransferRequest, valid_transfer,
  product_not_found, insufficient_stock, max_integer, refused_at_commit, valid_balance,
  valid_movement, reference_reserved_quantity, is_reference_movement,
}
use software_engineering_car.Inventory.Transaction.{Result, ok, err}
use software_engineering_car.Inventory.Balances.{
  contains_product, ensure_product_exists, find_balance, insert_empty_balance_if_missing,
  add_change, insert_if_missing, require_available,
}
use software_engineering_car.Inventory.Stock.{
  StockTransferResult, locked_balances, warehouse_of, transfer_stock,
  get_transfer_balances_for_update,
}
use software_engineering_car.Inventory.Stock.Rows.{
  find_balance-key, find_balance-save, find_balance-insert, or_empty,
}
use software_engineering_car.Inventory.Stock.Ledger.{
  IsSound, IsChange, changed, change-IsSound, insert-IsSound,
}
use software_engineering_car.Common.Table.{row_at}
use software_engineering_car.Inventory.Stock.Locks.{row_at-locked_balances}

abbrev pub sent : StockTransferRequest → InventoryBalance → InventoryBalance
sent r b = record b { quantity_on_hand = b.quantity_on_hand -ℤ r.quantity }

abbrev pub arrived : StockTransferRequest → InventoryBalance → InventoryBalance
arrived r b = record b { quantity_on_hand = b.quantity_on_hand +ℤ r.quantity }

abbrev pub outbound : ℕ → StockTransferRequest → InventoryBalance → StockMovement
outbound new_id r b = record {
  product_id = r.product_id;
  warehouse_id = r.source_warehouse_id;
  movement_type = MovementType.transfer_out;
  on_hand_delta = negate r.quantity;
  reserved_delta = pos 0;
  on_hand_balance_after = b.quantity_on_hand -ℤ r.quantity;
  reserved_balance_after = b.quantity_reserved;
  reference_id = r.reference_id;
  reason = r.reason;
  transfer_id = some new_id;
}

abbrev pub inbound : ℕ → StockTransferRequest → InventoryBalance → StockMovement
inbound new_id r b = record {
  product_id = r.product_id;
  warehouse_id = r.destination_warehouse_id;
  movement_type = MovementType.transfer_in;
  on_hand_delta = r.quantity;
  reserved_delta = pos 0;
  on_hand_balance_after = b.quantity_on_hand +ℤ r.quantity;
  reserved_balance_after = b.quantity_reserved;
  reference_id = r.reference_id;
  reason = r.reason;
  transfer_id = some new_id;
}

abbrev pub with_destination : StockTransferRequest → Db → Db
with_destination r db = record db {
  balances = insert_if_missing r.product_id r.destination_warehouse_id db.balances;
}

abbrev pub destination_for : StockTransferRequest → Db → InventoryBalance
destination_for r db =
    or_empty r.product_id r.destination_warehouse_id
      (find_balance r.product_id r.destination_warehouse_id db.balances)

-- What a transfer does, by the source balance that it finds and the destination's.
abbrev pub transfer_outcome :
    ℕ
    → StockTransferRequest
    → Db
    → InventoryBalance
    → Bool
    → Option InventoryBalance
    → Result StockTransferResult × Db
transfer_outcome new_id r db d false o = (err (product_not_found r.product_id), db)
transfer_outcome new_id r db d true none = (err (insufficient_stock (pos 0) r.quantity), db)
transfer_outcome new_id r db d true (some b) =
    if ltb_ℤ (b.quantity_on_hand -ℤ b.quantity_reserved) r.quantity
    then (err (insufficient_stock (b.quantity_on_hand -ℤ b.quantity_reserved) r.quantity), db)
    else if ltb_ℤ max_integer (d.quantity_on_hand +ℤ r.quantity)
    then (err refused_at_commit, db)
    else (
      ok (record {
        transfer_id = new_id;
        source_balance = sent r b;
        destination_balance = arrived r d;
        outbound_movement = outbound new_id r b;
        inbound_movement = inbound new_id r d;
      }),
      changed (changed (with_destination r db) (sent r b) (outbound new_id r b)) (arrived r d)
          (inbound new_id r d),
    )

transfer-valid :
    (new_id : ℕ) (r : StockTransferRequest) (b d : InventoryBalance)
    → pos 0 <ℤ r.quantity
    → pos 0 ≤ℤ b.quantity_reserved
    → b.quantity_on_hand ≤ℤ max_integer
    → pos 0 ≤ℤ d.quantity_reserved
    → d.quantity_reserved ≤ℤ d.quantity_on_hand
    → ltb_ℤ (b.quantity_on_hand -ℤ b.quantity_reserved) r.quantity ≡ false
    → (valid_balance (sent r b) ≡ true)
      × (valid_balance (arrived r d) ≡ not (ltb_ℤ max_integer (d.quantity_on_hand +ℤ r.quantity)))
      × (valid_movement (outbound new_id r b) ≡ true)
      × (valid_movement (inbound new_id r d) ≡ true)
unfolding valid_balance valid_movement
transfer-valid new_id r b d q h n i j k =
    (grind int_laws, grind int_laws, grind int_laws, grind int_laws)

module _ (new_id : ℕ) (r : StockTransferRequest) (db : Db) (s : IsSound db)
    (valid : valid_transfer r ≡ true) where
  apart : r.source_warehouse_id ≢ r.destination_warehouse_id
  unfolding valid_transfer
  apart = ground arith

  positive : pos 0 <ℤ r.quantity
  unfolding valid_transfer
  positive = ground arith

  with_destination-IsSound : IsSound (with_destination r db)
  with_destination-IsSound = insert-IsSound r.product_id r.destination_warehouse_id db s

  destination-found :
      find_balance r.product_id r.destination_warehouse_id (with_destination r db).balances
      ≡ some (destination_for r db)
  destination-found = ground (
    arith,
    find_balance-insert r.product_id r.destination_warehouse_id r.product_id
        r.destination_warehouse_id db.balances,
  )

  source-same :
      find_balance r.product_id r.source_warehouse_id (with_destination r db).balances
      ≡ find_balance r.product_id r.source_warehouse_id db.balances
  source-same = ground (
    arith,
    apart,
    find_balance-insert r.product_id r.destination_warehouse_id r.product_id r.source_warehouse_id
        db.balances,
  )

  destination-within :
      (pos 0 ≤ℤ (destination_for r db).quantity_reserved)
      × ((destination_for r db).quantity_reserved ≤ℤ (destination_for r db).quantity_on_hand)
      × ((destination_for r db).quantity_on_hand ≤ℤ max_integer)
  destination-within = ground (
    arith,
    with_destination-IsSound.within r.product_id r.destination_warehouse_id,
    destination-found,
  )

  source-read :
      row_at warehouse_of r.source_warehouse_id (
        locked_balances r.product_id r.source_warehouse_id r.destination_warehouse_id
          (with_destination r db).balances)
      ≡ find_balance r.product_id r.source_warehouse_id db.balances
  source-read =
      row_at-locked_balances r.product_id r.source_warehouse_id r.source_warehouse_id
        r.destination_warehouse_id (with_destination r db).balances
        (with_destination-IsSound.unique r.product_id) (ground arith)
      ∙ source-same

  destination-read :
      row_at warehouse_of r.destination_warehouse_id (
        locked_balances r.product_id r.source_warehouse_id r.destination_warehouse_id
          (with_destination r db).balances)
      ≡ some (destination_for r db)
  destination-read =
      row_at-locked_balances r.product_id r.destination_warehouse_id r.source_warehouse_id
        r.destination_warehouse_id (with_destination r db).balances
        (with_destination-IsSound.unique r.product_id) (ground arith)
      ∙ destination-found

  -- On a sound database a valid transfer of a known product moves the quantity from what the
  -- source has on hand to what the destination has, if the source's available quantity covers it
  -- and the destination's sum is in the range of its column, 2147483647 at most; it raises and
  -- changes nothing otherwise, at the commit if only the range does not allow it.
  pub transfer_stock_exact :
      transfer_stock new_id r db
      ≡ transfer_outcome new_id r db
          (destination_for r db)
          (contains_product r.product_id db.products)
          (find_balance r.product_id r.source_warehouse_id db.balances)
  unfolding transfer_stock ensure_product_exists insert_empty_balance_if_missing add_change
      require_available get_transfer_balances_for_update
  transfer_stock_exact =
      elim (Option-cases (find_balance r.product_id r.source_warehouse_id db.balances)) [
        | inl e ↦ ground (arith, source-read, destination-read)
        | inr (b, e) ↦ ground (
          arith,
          source-read,
          destination-read,
          transfer-valid new_id r b (destination_for r db) positive,
          destination-within,
          s.within r.product_id r.source_warehouse_id,
        )
      ]

  sent-IsChange :
      (b : InventoryBalance)
      → find_balance r.product_id r.source_warehouse_id db.balances ≡ some b
      → ltb_ℤ (b.quantity_on_hand -ℤ b.quantity_reserved) r.quantity ≡ false
      → IsChange (with_destination r db) b (sent r b) (outbound new_id r b)
  sent-IsChange b e k =
      let (p, w) = find_balance-key r.product_id r.source_warehouse_id db.balances b e in
      record {
        found = cc (p, w, e, source-same);
        same_product = refl;
        same_warehouse = refl;
        of_b_product = sym p;
        of_b_warehouse = sym w;
        on_hand_after = omega int_laws;
        reserved_after = omega int_laws;
        narrow = grind (int_laws, s.within r.product_id r.source_warehouse_id, e, positive);
        nonneg = grind (int_laws, s.within r.product_id r.source_warehouse_id, e);
        covered = grind (int_laws, s.within r.product_id r.source_warehouse_id, e);
        owed = λ reference.
            unfold reference_reserved_quantity is_reference_movement in
            ground (arith, s.references b.product_id b.warehouse_id reference);
      }

  -- The destination's row is still as it was read when the source's has been written.
  destination-still :
      (b : InventoryBalance)
      → find_balance r.product_id r.source_warehouse_id db.balances ≡ some b
      → find_balance r.product_id r.destination_warehouse_id
          (changed (with_destination r db) (sent r b) (outbound new_id r b)).balances
        ≡ some (destination_for r db)
  destination-still b e = ground (
    arith,
    apart,
    destination-found,
    find_balance-key r.product_id r.source_warehouse_id db.balances b e,
    find_balance-save r.product_id r.destination_warehouse_id (sent r b)
        (with_destination r db).balances,
  )

  arrived-IsChange :
      (b : InventoryBalance)
      → find_balance r.product_id r.source_warehouse_id db.balances ≡ some b
      → IsSound (changed (with_destination r db) (sent r b) (outbound new_id r b))
      → ltb_ℤ max_integer ((destination_for r db).quantity_on_hand +ℤ r.quantity) ≡ false
      → IsChange
          (changed (with_destination r db) (sent r b) (outbound new_id r b))
          (destination_for r db)
          (arrived r (destination_for r db))
          (inbound new_id r (destination_for r db))
  arrived-IsChange b e s' fits =
      let d = destination_for r db in
      let still = destination-still b e in
      let (p, w) =
        find_balance-key r.product_id r.destination_warehouse_id
          (changed (with_destination r db) (sent r b) (outbound new_id r b)).balances d still in
      let (low, high, _) = destination-within in
      let plus = positive in
      record {
        found = cc (p, w, still);
        same_product = refl;
        same_warehouse = refl;
        of_b_product = sym p;
        of_b_warehouse = sym w;
        on_hand_after = refl;
        reserved_after = omega int_laws;
        nonneg = low;
        narrow = grind int_laws;
        covered = omega int_laws;
        owed = λ reference.
            unfold reference_reserved_quantity is_reference_movement in
            ground (arith, s'.references d.product_id d.warehouse_id reference);
      }

  -- A transfer keeps the inventory sound.
  pub transfer_stock-IsSound : IsSound (transfer_stock new_id r db).1
  transfer_stock-IsSound = rw transfer_stock_exact (
      kept (contains_product r.product_id db.products)
        (find_balance r.product_id r.source_warehouse_id db.balances) refl)
    where
      kept :
          (known : Bool) (o : Option InventoryBalance)
          → find_balance r.product_id r.source_warehouse_id db.balances ≡ o
          → IsSound (transfer_outcome new_id r db (destination_for r db) known o).1
      kept false o e = s
      kept true none e = s
      kept true (some b) e =
          elim (Bool-cases (ltb_ℤ (b.quantity_on_hand -ℤ b.quantity_reserved) r.quantity)) [
            | inl short ↦ rw short s
            | inr covered ↦
                let s' = change-IsSound with_destination-IsSound (sent-IsChange b e covered) in
                elim (Bool-cases
                  (ltb_ℤ max_integer ((destination_for r db).quantity_on_hand +ℤ r.quantity))) [
                    | inl over ↦ rw (covered, over) s
                    | inr fits ↦
                        rw (covered, fits) (change-IsSound s' (arrived-IsChange b e s' fits))
                  ]
          ]
