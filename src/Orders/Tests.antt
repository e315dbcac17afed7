-- ===== src/Orders/Tests.antt =====
-- Orders at concrete inputs over the inventory, and the theorems at inputs that meet their
-- hypotheses.
use software_engineering_car.Common.{ℕ, String, ◌≡◌, refl, none, some, List, [], ◌∷◌, map}
use software_engineering_car.Common.Int.{pos, negate, ◌+ℤ◌, ◌-ℤ◌}
use software_engineering_car.Common.Table.{row_at, select_where, update_where}
use software_engineering_car.Inventory.Model.{
  Db, StockError, StockOrderRequest, reference_reserved_quantity, is_reference_movement,
  valid_balance, valid_movement,
}
use software_engineering_car.Inventory.Balances.{
  ensure_product_exists, find_balance, get_balance_for_update, commit_change, save_balance,
  require_available, require_releasable,
}
use software_engineering_car.Inventory.Stock.{reserve_stock, release_stock}
use software_engineering_car.Orders.Model.{
  OrderStatus, Order, OrderCreate, Decimal, to_cents, is_negative, Result, ok, order_id,
}
use software_engineering_car.Orders.Client.{Reply, returned, ServiceClient, Contract}
use software_engineering_car.Orders.{
  release_lines, Faults, Draft, add_item, build_items, build_order, with_status, set_status,
  reserve_all, create_order, release_all, cancel_order, confirm_order, new_order, require_order,
}
use software_engineering_car.Orders.Creation.{Booked, requested_line, create_order-Booked}
use software_engineering_car.Orders.Cancellation.{Released, cancel_order-Released}
use software_engineering_car.Orders.Lifecycle.{create_then_cancel}
use software_engineering_car.Orders.Stock.{
  Delivery, delivered, unanswered, stock_held, inventory_client, inventory_contract,
}

-- Ten pieces of product 1 lie in warehouse 5; each costs 2.50.
abbrev shop : Db
shop = record {
  products = 1 ∷ [];
  balances =
      record {
        product_id = 1;
        warehouse_id = 5;
        quantity_on_hand = pos 10;
        quantity_reserved = pos 0;
      }
      ∷ [];
  movements = [];
}

abbrev detail : StockError → String
detail e = "refused"

abbrev prices : ℕ → Reply Decimal
prices p = returned (record { coefficient = pos 250; scale = 2 })

abbrev warehouses : ℕ → Reply (Unit {0})
warehouses w = returned tt

-- A network that loses nothing.
abbrev network : StockOrderRequest → Db → Delivery
network _ _ = delivered

abbrev client : ServiceClient Db
client = inventory_client detail network prices warehouses

abbrev number_of : ℕ → String
number_of k = "ORD-7"

abbrev request : OrderCreate
request = record {
  customer_name = "Ada";
  customer_email = "ada@example.org";
  warehouse_id = 5;
  items = record { product_id = 1; quantity = 4 } ∷ [];
}

abbrev calm : Faults
calm = record { flush_error = none; commit_error = none }

abbrev stored : Order
stored = record {
  id = 7;
  order_number = "ORD-7";
  customer_name = "Ada";
  customer_email = "ada@example.org";
  warehouse_id = 5;
  status = OrderStatus.reserved;
  total_amount = 1000;
  items = record { product_id = 1; quantity = 4; unit_price = 250; line_total = 1000 } ∷ [];
}

abbrev after_create : Result × List Order × Db
after_create = create_order client number_of request 7 calm [] shop

created :
    create_order client number_of request 7 calm [] shop ≡ (ok stored, stored ∷ [], after_create.2)
unfolding create_order build_order build_items add_item to_cents is_negative new_order reserve_all
    require_order row_at reserve_stock ensure_product_exists get_balance_for_update find_balance
    require_available commit_change save_balance select_where update_where
    reference_reserved_quantity is_reference_movement valid_balance valid_movement ◌+ℤ◌ ◌-ℤ◌
created = refl

abbrev contract : Contract client
contract = inventory_contract detail network prices warehouses

create_order-Booked_example :
    Booked 5 "ORD-7"
      (map requested_line request.items)
      []
      (create_order client number_of request 7 calm [] shop).1
      (contract.held shop)
      (contract.held (create_order client number_of request 7 calm [] shop).2)
      (create_order client number_of request 7 calm [] shop).0
create_order-Booked_example = create_order-Booked client contract number_of request 7 calm [] shop

abbrev draft : Draft
draft =
    (add_item (record { order_items = []; reservation_lines = []; total_amount = 0 })
      (record { product_id = 1; quantity = 4 }) (record { coefficient = pos 250; scale = 2 }))

built : build_order client request shop ≡ (returned draft, shop)
unfolding build_order build_items is_negative
built = refl

stored_there : row_at order_id 7 (stored ∷ []) ≡ some stored
unfolding row_at
stored_there = refl

-- The database fails the commit of a cancellation.
abbrev broken : Faults
broken = record { flush_error = none; commit_error = some "connection lost" }

cancel_order-Released_example :
    Released stored
      (stored ∷ [])
      (cancel_order client 7 broken (stored ∷ []) after_create.2).1
      (contract.held after_create.2)
      (contract.held (cancel_order client 7 broken (stored ∷ []) after_create.2).2)
      (cancel_order client 7 broken (stored ∷ []) after_create.2).0
cancel_order-Released_example =
    cancel_order-Released client contract broken (stored ∷ []) after_create.2 stored stored_there
      refl

abbrev cancelled_order : Order
cancelled_order = with_status OrderStatus.cancelled stored

abbrev after_cancel : Result × List Order × Db
after_cancel = cancel_order client 7 calm (stored ∷ []) after_create.2

cancelled :
    cancel_order client 7 calm (stored ∷ []) after_create.2
    ≡ (ok cancelled_order, after_cancel.1, after_cancel.2)
unfolding cancel_order release_all release_stock require_releasable set_status create_order
    build_order build_items add_item to_cents is_negative new_order reserve_all require_order row_at
    reserve_stock ensure_product_exists get_balance_for_update find_balance require_available
    commit_change save_balance select_where update_where reference_reserved_quantity
    is_reference_movement valid_balance valid_movement negate ◌+ℤ◌ ◌-ℤ◌
cancelled = refl

create_then_cancel_example :
    contract.held after_cancel.2 1 5 "ORD-7" ≡ contract.held shop 1 5 "ORD-7"
create_then_cancel_example =
    create_then_cancel client contract number_of request 7 calm calm [] (stored ∷ []) after_cancel.1
      shop after_create.2 after_cancel.2 stored cancelled_order created cancelled 1 5 "ORD-7"

abbrev confirmed_order : Order
confirmed_order = with_status OrderStatus.confirmed stored

confirmed_once : confirm_order 7 calm (stored ∷ []) ≡ (ok confirmed_order, confirmed_order ∷ [])
unfolding confirm_order require_order set_status row_at update_where
confirmed_once = refl

-- A network that serves each request and loses its answer.
abbrev losing : StockOrderRequest → Db → Delivery
losing _ _ = unanswered

abbrev lossy : ServiceClient Db
lossy = inventory_client detail losing prices warehouses

-- The creation fails, and the stock of its line stays reserved.
still_held : stock_held (create_order lossy number_of request 7 calm [] shop).2 1 5 "ORD-7" ≡ pos 4
unfolding create_order build_order build_items add_item to_cents is_negative new_order reserve_all
    require_order row_at reserve_stock ensure_product_exists get_balance_for_update find_balance
    require_available commit_change save_balance select_where update_where
    reference_reserved_quantity is_reference_movement valid_balance valid_movement release_lines
    negate ◌+ℤ◌ ◌-ℤ◌
still_held = refl
