-- ===== src/Inventory/Stock/Rows.antt =====
-- The balance that stands at a product and a warehouse, under the statements that change the table.
use software_engineering_car.Common.{
  ℕ, ◌≡◌, ◌&&◌, Option, none, some, List, [], ◌∷◌, arith, ◌==◌, if◌then◌else◌,
}
use software_engineering_car.Common.Table.{select_where, update_where}
use software_engineering_car.Inventory.Model.{InventoryBalance, is_at}
use software_engineering_car.Inventory.Balances.{
  find_balance, empty_balance, insert_if_missing, save_balance, with_quantities,
}

pub find_balance-cons :
    (p w : ℕ) (b : InventoryBalance) (rows : List InventoryBalance)
    → find_balance p w (b ∷ rows) ≡ (if is_at p w b then some b else find_balance p w rows)
unfolding find_balance select_where
find_balance-cons p w b rows = ground arith

pub find_balance-key :
    (p w : ℕ) (rows : List InventoryBalance) (b : InventoryBalance)
    → find_balance p w rows ≡ some b
    → (b.product_id ≡ p) × (b.warehouse_id ≡ w)
find_balance-key p w [] b h = unfold find_balance select_where in ground arith
find_balance-key p w (c ∷ rows) b h =
    ground (arith, find_balance-cons p w c rows, find_balance-key p w rows b)

abbrev pub or_empty : ℕ → ℕ → Option InventoryBalance → InventoryBalance
or_empty p w none = empty_balance p w
or_empty p w (some b) = b

pub find_balance-insert :
    (p w p' w' : ℕ) (rows : List InventoryBalance)
    → find_balance p' w' (insert_if_missing p w rows) ≡ (
        if p == p' && w == w'
        then some (or_empty p w (find_balance p w rows))
        else find_balance p' w' rows)
unfolding insert_if_missing
find_balance-insert p w p' w' rows =
    ground (arith, find_balance-cons p' w' (empty_balance p w) rows)

abbrev pub map_quantities : InventoryBalance → Option InventoryBalance → Option InventoryBalance
map_quantities b none = none
map_quantities b (some row) = some (with_quantities b row)

pub find_balance-save :
    (p w : ℕ) (b : InventoryBalance) (rows : List InventoryBalance)
    → find_balance p w (save_balance b rows)
      ≡ (if is_at p w b then map_quantities b (find_balance p w rows) else find_balance p w rows)
unfolding save_balance update_where
find_balance-save p w b [] = unfold find_balance select_where in ground arith
find_balance-save p w b (c ∷ rows) = ground (
  arith,
  find_balance-cons p w c rows,
  find_balance-cons p w (with_quantities b c)
      (update_where (is_at b.product_id b.warehouse_id) (with_quantities b) rows),
  find_balance-cons p w c
      (update_where (is_at b.product_id b.warehouse_id) (with_quantities b) rows),
  find_balance-save p w b rows,
)
