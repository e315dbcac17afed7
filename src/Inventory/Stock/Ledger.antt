-- ===== src/Inventory/Stock/Ledger.antt =====
-- The invariant of the inventory: every balance is within its bounds, and is the sum of its audit
-- movements.
use software_engineering_car.Common.{
  ℕ, String, ◌≡◌, refl, sym, Bool, false, ◌&&◌, Option, none, some, List, [], ◌∷◌, arith, ◌==◌, inl,
  inr, Option-cases, if◌then◌else◌,
}
use mathlib.Core.Path.{subst}
use software_engineering_car.Common.Int.{ℤ, pos, ◌+ℤ◌, ◌≤ℤ◌, int_laws}
use software_engineering_car.Common.Table.{
  UniqueKeys, has_key, select_where, update_where-UniqueKeys, select_where-update_where,
}
use software_engineering_car.Inventory.Model.{
  max_integer, InventoryBalance, StockMovement, Db, is_at, is_reference_movement,
  reference_reserved_quantity,
}
use software_engineering_car.Inventory.Balances.{
  find_balance, insert_if_missing, save_balance, with_quantities,
}
use software_engineering_car.Inventory.Stock.{warehouse_of}
use software_engineering_car.Inventory.Stock.Rows.{
  find_balance-cons, find_balance-insert, find_balance-save,
}

-- What is on hand, or reserved, where there may be no balance yet.
abbrev pub on_hand_of : Option InventoryBalance → ℤ
on_hand_of none = pos 0
on_hand_of (some b) = b.quantity_on_hand

abbrev pub reserved_of : Option InventoryBalance → ℤ
reserved_of none = pos 0
reserved_of (some b) = b.quantity_reserved

abbrev pub moves_at : ℕ → ℕ → StockMovement → Bool
moves_at p w m = m.product_id == p && m.warehouse_id == w

-- The sums of the audit trail of one product in one warehouse.
unfoldable pub on_hand_total : ℕ → ℕ → List StockMovement → ℤ
on_hand_total p w [] = pos 0
on_hand_total p w (m ∷ ms) =
    let rest = on_hand_total p w ms in if moves_at p w m then m.on_hand_delta +ℤ rest else rest

unfoldable pub reserved_total : ℕ → ℕ → List StockMovement → ℤ
reserved_total p w [] = pos 0
reserved_total p w (m ∷ ms) =
    let rest = reserved_total p w ms in if moves_at p w m then m.reserved_delta +ℤ rest else rest

abbrev pub of_product : ℕ → InventoryBalance → Bool
of_product p b = b.product_id == p

pub record IsSound (db : Db) : Type 0 where
  -- one balance for each product and warehouse
  pub unique : (p : ℕ) → UniqueKeys warehouse_of (select_where (of_product p) db.balances)
  -- 0 ≤ reserved ≤ on hand, in the range of the column
  pub within :
      (p w : ℕ)
      → (pos 0 ≤ℤ reserved_of (find_balance p w db.balances))
        × (reserved_of (find_balance p w db.balances) ≤ℤ on_hand_of (find_balance p w db.balances))
        × (on_hand_of (find_balance p w db.balances) ≤ℤ max_integer)
  -- the balances are what the movements add up to
  pub on_hand :
      (p w : ℕ) → on_hand_of (find_balance p w db.balances) ≡ on_hand_total p w db.movements
  pub reserved :
      (p w : ℕ) → reserved_of (find_balance p w db.balances) ≡ reserved_total p w db.movements
  -- no order has released more than it reserved
  pub references :
      (p w : ℕ) (reference : String)
      → pos 0 ≤ℤ reference_reserved_quantity p w reference db.movements

has_key-select_where_absent :
    (p w : ℕ) (rows : List InventoryBalance)
    → find_balance p w rows ≡ none
    → has_key warehouse_of w (select_where (of_product p) rows) ≡ false
unfolding has_key select_where
has_key-select_where_absent p w [] h = refl
has_key-select_where_absent p w (b ∷ rows) h =
    ground (arith, find_balance-cons p w b rows, has_key-select_where_absent p w rows)

pub insert-present :
    (p w : ℕ) (rows : List InventoryBalance) (b : InventoryBalance)
    → find_balance p w rows ≡ some b
    → insert_if_missing p w rows ≡ rows
unfolding insert_if_missing
insert-present p w rows b e = rw (e, insert_if_missing)

-- An empty balance may be inserted where there is none.
pub insert-IsSound :
    (p w : ℕ) (db : Db)
    → IsSound db
    → IsSound (record db { balances = insert_if_missing p w db.balances })
insert-IsSound p w db s = elim (Option-cases (find_balance p w db.balances)) [
  | inl e ↦ record {
    unique = λ p'.
        unfold insert_if_missing select_where in
        ground (arith, s.unique p', e, has_key-select_where_absent p w db.balances);
    within = λ p' w'. ground (arith, find_balance-insert p w p' w' db.balances, s.within p' w');
    on_hand =
        λ p' w'. ground (arith, find_balance-insert p w p' w' db.balances, s.on_hand p' w', e);
    reserved =
        λ p' w'. ground (arith, find_balance-insert p w p' w' db.balances, s.reserved p' w', e);
    references = s.references;
  }
  | inr (b, e) ↦
      subst (λ rows. IsSound (record db { balances = rows }))
        (sym (insert-present p w db.balances b e)) s
]

-- The change that an operation commits: a balance and the movement that accounts for it.
pub record IsChange (db : Db) (b b' : InventoryBalance) (m : StockMovement) : Type 0 where
  pub found : find_balance b.product_id b.warehouse_id db.balances ≡ some b
  pub same_product : b'.product_id ≡ b.product_id
  pub same_warehouse : b'.warehouse_id ≡ b.warehouse_id
  pub of_b_product : m.product_id ≡ b.product_id
  pub of_b_warehouse : m.warehouse_id ≡ b.warehouse_id
  pub on_hand_after : b'.quantity_on_hand ≡ b.quantity_on_hand +ℤ m.on_hand_delta
  pub reserved_after : b'.quantity_reserved ≡ b.quantity_reserved +ℤ m.reserved_delta
  pub nonneg : pos 0 ≤ℤ b'.quantity_reserved
  pub covered : b'.quantity_reserved ≤ℤ b'.quantity_on_hand
  pub narrow : b'.quantity_on_hand ≤ℤ max_integer
  pub owed :
      (reference : String)
      → pos 0
        ≤ℤ reference_reserved_quantity b.product_id b.warehouse_id reference (m ∷ db.movements)

abbrev pub changed : Db → InventoryBalance → StockMovement → Db
changed db b m = record db { balances = save_balance b db.balances; movements = m ∷ db.movements }

module _ {db : Db} {b b' : InventoryBalance} {m : StockMovement} (s : IsSound db)
    (c : IsChange db b b' m) where
  change_unique :
      (p : ℕ) → UniqueKeys warehouse_of (select_where (of_product p) (save_balance b' db.balances))
  unfolding save_balance
  change_unique p =
      rw
        (select_where-update_where (of_product p) (is_at b'.product_id b'.warehouse_id)
          (with_quantities b') db.balances (λ a. refl))
        (update_where-UniqueKeys warehouse_of (is_at b'.product_id b'.warehouse_id)
          (with_quantities b') (select_where (of_product p) db.balances) (λ a. refl) (s.unique p))

  -- The balance at a product and warehouse after the change.
  pub change-find :
      (p w : ℕ)
      → find_balance p w (save_balance b' db.balances)
        ≡ (if is_at p w b then some b' else find_balance p w db.balances)
  change-find p w =
      ground
        (arith, find_balance-save p w b' db.balances, c.found, c.same_product, c.same_warehouse)

  pub change-IsSound : IsSound (changed db b' m)
  change-IsSound = record {
    unique = change_unique;
    within = λ p w. ground (arith, change-find p w, s.within p w, c.nonneg, c.covered, c.narrow);
    on_hand = λ p w.
        unfold on_hand_total in
        grind (
          int_laws,
          change-find p w,
          s.on_hand p w,
          c.found,
          c.on_hand_after,
          c.of_b_product,
          c.of_b_warehouse,
        );
    reserved = λ p w.
        unfold reserved_total in
        grind (
          int_laws,
          change-find p w,
          s.reserved p w,
          c.found,
          c.reserved_after,
          c.of_b_product,
          c.of_b_warehouse,
        );
    references = λ p w reference.
        unfold reference_reserved_quantity is_reference_movement in
        ground
          (arith, s.references p w reference, c.owed reference, c.of_b_product, c.of_b_warehouse);
  }
