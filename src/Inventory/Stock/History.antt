-- ===== src/Inventory/Stock/History.antt =====
-- The inventory after any sequence of stock requests.
use software_engineering_car.Common.{ℕ, ◌≡◌, refl, true, List, [], ◌∷◌, arith}
use software_engineering_car.Common.Int.{pos, ◌<ℤ◌}
use software_engineering_car.Common.Table.{select_where}
use software_engineering_car.Inventory.Model.{
  Db, StockChangeRequest, StockOrderRequest, StockTransferRequest, valid_transfer,
  reference_reserved_quantity,
}
use software_engineering_car.Inventory.Balances.{find_balance}
use software_engineering_car.Inventory.Stock.{
  receive_stock, issue_stock, reserve_stock, release_stock, transfer_stock,
}
use software_engineering_car.Inventory.Stock.Ledger.{IsSound, on_hand_total, reserved_total}
use software_engineering_car.Inventory.Stock.Receive.{receive_stock-IsSound}
use software_engineering_car.Inventory.Stock.Issue.{issue_stock-IsSound}
use software_engineering_car.Inventory.Stock.Reserve.{reserve_stock-IsSound}
use software_engineering_car.Inventory.Stock.Release.{release_stock-IsSound}
use software_engineering_car.Inventory.Stock.Transfer.{transfer_stock-IsSound}

pub data StockRequest : Type 0 where
  receipt issue : StockChangeRequest → StockRequest
  reservation release : StockOrderRequest → StockRequest
  transfer : ℕ → StockTransferRequest → StockRequest

-- What the request schemas accept.
abbrev pub IsAccepted : StockRequest → Type 0
IsAccepted (receipt r) = pos 0 <ℤ r.quantity
IsAccepted (issue r) = pos 0 <ℤ r.quantity
IsAccepted (reservation r) = pos 0 <ℤ r.quantity
IsAccepted (release r) = pos 0 <ℤ r.quantity
IsAccepted (transfer new_id r) = valid_transfer r ≡ true

abbrev pub AllAccepted : List StockRequest → Type 0
AllAccepted [] = Unit
AllAccepted (r ∷ rs) = IsAccepted r × AllAccepted rs

-- One request; its reply does not matter here.
unfoldable pub serve : StockRequest → Db → Db
serve (receipt r) db = (receive_stock r db).1
serve (issue r) db = (issue_stock r db).1
serve (reservation r) db = (reserve_stock r db).1
serve (release r) db = (release_stock r db).1
serve (transfer new_id r) db = (transfer_stock new_id r db).1

unfoldable pub serve_all : List StockRequest → Db → Db
serve_all [] db = db
serve_all (r ∷ rs) db = serve_all rs (serve r db)

abbrev pub new_db : List ℕ → Db
new_db products = record { products = products; balances = []; movements = [] }

pub new_db-IsSound : (products : List ℕ) → IsSound (new_db products)
unfolding on_hand_total reserved_total reference_reserved_quantity find_balance select_where
new_db-IsSound products = record {
  unique = λ p. tt;
  within = λ p w. omega arith;
  on_hand = λ p w. refl;
  reserved = λ p w. refl;
  references = λ p w reference. omega arith;
}

serve-IsSound : (r : StockRequest) (db : Db) → IsAccepted r → IsSound db → IsSound (serve r db)
unfolding serve
serve-IsSound (receipt r) db h s = receive_stock-IsSound r db s h
serve-IsSound (issue r) db h s = issue_stock-IsSound r db s h
serve-IsSound (reservation r) db h s = reserve_stock-IsSound r db s h
serve-IsSound (release r) db h s = release_stock-IsSound r db s h
serve-IsSound (transfer new_id r) db h s = transfer_stock-IsSound new_id r db s h

serve_all-IsSound :
    (rs : List StockRequest) (db : Db) → AllAccepted rs → IsSound db → IsSound (serve_all rs db)
unfolding serve_all
serve_all-IsSound [] db h s = s
serve_all-IsSound (r ∷ rs) db h s = serve_all-IsSound rs (serve r db) h.1 (serve-IsSound r db h.0 s)

-- From empty tables, after any accepted requests, served or refused: one balance for each product
-- and warehouse, 0 ≤ reserved ≤ on hand ≤ 2147483647 in each, both the sums of the audit movements,
-- and no order has released more than it reserved.
pub inventory-IsSound :
    (products : List ℕ) (rs : List StockRequest)
    → AllAccepted rs
    → IsSound (serve_all rs (new_db products))
inventory-IsSound products rs h = serve_all-IsSound rs (new_db products) h (new_db-IsSound products)
