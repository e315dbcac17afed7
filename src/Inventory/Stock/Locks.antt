-- ===== src/Inventory/Stock/Locks.antt =====
-- The rows that a transfer locks, and the balances that it reads from them.
use software_engineering_car.Common.{
  ℕ, ◌≡◌, refl, Bool, true, ◌&&◌, ◌||◌, ◌==◌, leb, Option, none, some, List, [], ◌∷◌, arith, ap,
  ◌∙◌,
}
use mathlib.Core.Path.{fun_ext}
use software_engineering_car.Inventory.Model.{InventoryBalance}
use software_engineering_car.Inventory.Balances.{find_balance}
use software_engineering_car.Inventory.Stock.{locked_balances, warehouse_of}
use software_engineering_car.Inventory.Stock.Rows.{find_balance-key}
use software_engineering_car.Inventory.Stock.Ledger.{of_product}
use software_engineering_car.Common.Sorting.{order_by}
use software_engineering_car.Common.Table.{
  UniqueKeys, row_at, if_row, select_where, select_where-and, row_at-order_by_select,
}

-- Two opposite transfers of one product between two warehouses lock the same rows in the same
-- order.
pub locked_balances_symmetric :
    (p source destination : ℕ) (rows : List InventoryBalance)
    → locked_balances p source destination rows ≡ locked_balances p destination source rows
unfolding locked_balances
locked_balances_symmetric p source destination rows =
    ap
      (λ (test : InventoryBalance → Bool).
        order_by (λ a b. leb a.warehouse_id b.warehouse_id) (select_where test rows))
      (fun_ext
        (λ b. swap (b.product_id == p) (b.warehouse_id == source) (b.warehouse_id == destination)))
  where
    swap : (c d e : Bool) → (c && (d || e)) ≡ (c && (e || d))
    swap c d e = ground arith

row_at-find_balance :
    (p w : ℕ) (rows : List InventoryBalance)
    → row_at warehouse_of w (select_where (of_product p) rows) ≡ find_balance p w rows
unfolding row_at select_where find_balance
row_at-find_balance p w [] = refl
row_at-find_balance p w (b ∷ rows) = ground (arith, row_at-find_balance p w rows)

abbrev in_either : ℕ → ℕ → InventoryBalance → Bool
in_either source destination b = b.warehouse_id == source || b.warehouse_id == destination

if_row-found :
    (p w source destination : ℕ) (rows : List InventoryBalance) (o : Option InventoryBalance)
    → find_balance p w rows ≡ o
    → (w == source || w == destination) ≡ true
    → if_row (in_either source destination) o ≡ o
if_row-found p w source destination rows none e h = refl
if_row-found p w source destination rows (some b) e h =
    ground (arith, find_balance-key p w rows b e)

-- Reading a warehouse's balance from the locked rows finds the balance of the table.
pub row_at-locked_balances :
    (p w source destination : ℕ) (rows : List InventoryBalance)
    → UniqueKeys warehouse_of (select_where (of_product p) rows)
    → (w == source || w == destination) ≡ true
    → row_at warehouse_of w (locked_balances p source destination rows) ≡ find_balance p w rows
unfolding locked_balances
row_at-locked_balances p w source destination rows u h =
    rw (select_where-and (of_product p) (in_either source destination) rows) (
      row_at-order_by_select warehouse_of (λ a b. leb a.warehouse_id b.warehouse_id)
        (in_either source destination) 0 (select_where (of_product p) rows) u w
      ∙ ap (if_row (in_either source destination)) (row_at-find_balance p w rows)
      ∙ if_row-found p w source destination rows (find_balance p w rows) refl h)
